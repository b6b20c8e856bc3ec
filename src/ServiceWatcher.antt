-- ===== src/ServiceWatcher.antt =====
-- pkg/controller/service_watcher.go and keyop.go: the events of the informer, the queue of keys, and
-- what a key's turn does to the target. The queue, the informer's index and the key functions of
-- client-go are parameters; logs and metrics are left out.
pub mod Calls
pub mod Handlers
pub mod Pairing
pub mod Process
pub mod Panics
pub mod Former
pub mod Drain
pub mod Twice
pub mod Waiting
pub mod Lifecycle
pub mod Informer
mod Examples
mod WaitingExamples
mod LifecycleExamples
use kube_service_exporter.Base.{
  ℕ, not, Option, none, some, List, [], ◌∷◌, map, if◌then◌else◌, Text, text_eq,
}
use kube_service_exporter.Go.Run.{Run, ok, err, panic}
use kube_service_exporter.Go.Act.{Act, pure, lift, ◌>>=◌, ◌>>◌}
use kube_service_exporter.Go.Json.{Json}
use kube_service_exporter.Kube.{Service}
use kube_service_exporter.Util.{string_in_slice}
use kube_service_exporter.Export.{
  ExportedService, id, is_exportable_service, Indexed, lookup_failed, absent, not_service, found,
  new_exported_services,
}
use kube_service_exporter.ExportTarget.{ExportTarget}

pub data Operation : Type 0 where
  add_op update_op delete_op : Operation

-- an object of the informer: a Service, or something else
pub data Object : Type 0 where
  service : Service → Object
  other : Object

pub record KeyOp : Type 0 where
  pub key : Text
  pub attempts : ℕ
  pub obj : Object
  pub operation : Operation

pub new_key_op : Text → Object → Operation → KeyOp
new_key_op key obj op = record { key = key; attempts = 0; obj = obj; operation = op }

-- what Forget is called with: a KeyOp, or the address of one
pub data Handle : Type 0 where
  value pointer : KeyOp → Handle

-- queue.Interface, as far as the watcher uses it; Get fails on an empty queue
pub record Queue : Type 1 where
  pub Pending : Type 0
  pub add : KeyOp → Pending → Pending
  pub get : Pending → Option KeyOp × Pending
  pub forget : Handle → Pending → Pending

-- `list, _ := ...`: an error leaves the list nil
abbrev list_or_empty : Run (List ExportedService) → Run (List ExportedService)
list_or_empty (ok l) = ok l
list_or_empty (err e) = ok []
list_or_empty panic = panic

abbrev dismiss : Run (Unit {0}) → Run (Unit {0})
dismiss (ok u) = ok u
dismiss (err e) = ok tt
dismiss panic = panic

-- a call whose error is logged only
abbrev pub ignore : {S : Type 0} → Act S (Unit {0}) → Act S (Unit {0})
ignore m s = let (r, s') = m s in (dismiss r, s')

-- matchingExportedService
unfoldable pub matching : List ExportedService → ExportedService → Option ExportedService
matching [] es = none
matching (o ∷ olds) es =
    let rest = matching olds es in if text_eq (id es) (id o) then some o else rest

-- the two lists have one element each
abbrev only_one : List ExportedService → List ExportedService → Option ExportedService
only_one (o ∷ []) (n ∷ []) = some o
only_one _ _ = none

-- what the service used to be
unfoldable pub former :
    List ExportedService → List ExportedService → ExportedService → Option ExportedService
unfolding matching
former olds news es = elim (matching olds es) [ none ↦ only_one olds news | some o ↦ some o ]

module _ (unmarshal : Text → Option Json) (cluster_id : Text) (index : Text → Indexed) where
  unfoldable pub exported_of : Service → Run (List ExportedService)
  exported_of s = new_exported_services unmarshal index s cluster_id

  -- the services of a pointer, with errors ignored; reading through nil panics
  unfoldable pub olds_of : Option Service → Run (List ExportedService)
  olds_of none = panic
  olds_of (some s) = list_or_empty (exported_of s)

module _ (T : ExportTarget) where
  open T use {World}

  -- the loop of addService
  unfoldable pub create_each : List ExportedService → Act World (Unit {0})
  create_each [] = pure tt
  create_each (es ∷ more) = do ignore (T.create es); create_each more

  -- the first loop of updateService
  unfoldable pub update_each :
      List ExportedService → List ExportedService → List ExportedService → Act World (Unit {0})
  unfolding former
  update_each olds news [] = pure tt
  update_each olds news (es ∷ more) = do
    T.update (former olds news es) es
    update_each olds news more

  -- its second loop
  unfoldable pub delete_removed : List Text → List ExportedService → Act World (Unit {0})
  delete_removed new_ids [] = pure tt
  delete_removed new_ids (es ∷ more) = do
    if string_in_slice (id es) new_ids then pure tt else ignore (T.delete es)
    delete_removed new_ids more

  -- the loop of deleteService
  unfoldable pub delete_each : List ExportedService → Act World (Unit {0})
  delete_each [] = pure tt
  delete_each (es ∷ more) = do ignore (T.delete es); delete_each more

  module _ (unmarshal : Text → Option Json) (cluster_id : Text) (index : Text → Indexed) where
    unfoldable pub add_service : Service → Act World (Unit {0})
    unfolding create_each
    add_service s =
        if not (is_exportable_service s)
        then pure tt
        else do list ← lift (exported_of unmarshal cluster_id index s); create_each list

    unfoldable pub delete_service : Option Service → Act World (Unit {0})
    unfolding delete_each
    delete_service s = do list ← lift (olds_of unmarshal cluster_id index s); delete_each list

    unfoldable pub update_service : Option Service → Service → Act World (Unit {0})
    unfolding update_each delete_removed
    update_service old new = do
      if not (is_exportable_service new) then delete_service old else pure tt
      olds ← lift (olds_of unmarshal cluster_id index old)
      news ← lift (exported_of unmarshal cluster_id index new)
      update_each olds news news
      delete_removed (map id news) olds
