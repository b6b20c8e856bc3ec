-- ===== src/NodeWatcher.antt =====
-- pkg/controller/node_watcher.go: which nodes are exported, and when a node is looked at again. The
-- work queue of client-go, the informer's index and the listing by a label selector are parameters;
-- logs and metrics are left out.
pub mod Select
pub mod Process
pub mod Turns
pub mod Lifecycle
mod Examples
use kube_service_exporter.Base.{
  ℕ, Option, none, some, List, [], ◌∷◌, ltb, ◌==◌, if◌then◌else◌, length, Text,
}
use kube_service_exporter.Go.Run.{Run, ok, err, panic}
use kube_service_exporter.Go.Act.{Act}
use kube_service_exporter.Kube.{Node}
use kube_service_exporter.Util.{should_include}
use kube_service_exporter.ExportTarget.{ExportTarget}
use kube_service_exporter.ServiceWatcher.{ignore}

with_selector : Text → Run (Unit {0}) → Run Text
with_selector selector (ok u) = ok selector
with_selector selector (err e) = err e
with_selector selector panic = panic

module _ (T : ExportTarget) where
  -- what follows the loop: an error of the target is logged only
  unfoldable pub write_selected : Run (List Node × Text) → Act T.World Text
  unfolding with_selector
  write_selected (ok (ready, selector)) w =
      let (r, w') = ignore (T.write_nodes ready) w in (with_selector selector r, w')
  write_selected (err e) w = (err e, w)
  write_selected panic w = (panic, w)

module _ (parse_time : Text → Option ℕ) (now : ℕ) where
  -- the nodes that ShouldInclude accepts
  unfoldable pub included : List Node → List Node
  included [] = []
  included (n ∷ nodes) =
      let rest = included nodes in if (should_include parse_time now n).0 then n ∷ rest else rest

  -- `list` is what Parse and List give for a selector: `none` where it does not parse, since List panics on
  -- the nil Selector that Parse leaves
  module _ (list : Text → Option (List Node)) (min_count : ℕ) where
    -- the loop over the selectors: the nodes found so far, and the selector that was looked at last
    unfoldable pub select : List Text → List Node × Text → Run (List Node × Text)
    select [] found_so_far = ok found_so_far
    select (s ∷ selectors) found_so_far =
        let go_on_with : List Node × Text → Run (List Node × Text) = select selectors in
        elim (list s) [
          | none ↦ panic
          | some nodes ↦
              let candidates = included nodes in
              if length candidates == 0
              then go_on_with (found_so_far.0, s)
              else if ltb min_count (length candidates)
              then ok (candidates, s)
              else go_on_with (candidates, s)
        ]

    module _ (T : ExportTarget) where
      -- exportNodes, with the selector that it keeps
      unfoldable pub export_nodes : List Text → Act T.World Text
      unfolding write_selected
      export_nodes selectors w = write_selected T (select selectors ([], [])) w
