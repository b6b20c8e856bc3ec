-- ===== src/ExportTarget.antt =====
-- pkg/controller/export_target.go: what the watchers ask of a target. The Booleans that the methods
-- return beside their errors are left out, since no watcher reads them.
use kube_service_exporter.Base.{Option, List}
use kube_service_exporter.Go.Act.{Act}
use kube_service_exporter.Kube.{Node}
use kube_service_exporter.Export.{ExportedService}

pub record ExportTarget : Type 1 where
  pub World : Type 0
  pub create : ExportedService → Act World (Unit {0})
  pub update : Option ExportedService → ExportedService → Act World (Unit {0})
  pub delete : ExportedService → Act World (Unit {0})
  pub write_nodes : List Node → Act World (Unit {0})
