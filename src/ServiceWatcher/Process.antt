-- ===== src/ServiceWatcher/Process.antt =====
-- The informer's events (AddFunc, UpdateFunc and DeleteFunc), processNextItem and runWorker.
use kube_service_exporter.Base.{
  ℕ, zero, suc, Bool, true, false, not, ◌&&◌, Option, none, some, List, [], ◌∷◌, ◌==◌,
  if◌then◌else◌, length, Text, lookup, text_eq,
}
use kube_service_exporter.Go.Run.{Run, ok, err, panic}
use kube_service_exporter.Go.Act.{Act}
use kube_service_exporter.Go.Json.{Json}
use kube_service_exporter.Kube.{Service}
use kube_service_exporter.Util.{string_in_slice}
use kube_service_exporter.Export.{Indexed, lookup_failed, absent, not_service, found}
use kube_service_exporter.ExportTarget.{ExportTarget}
use kube_service_exporter.ServiceWatcher.{
  Operation, add_op, update_op, delete_op, Object, service, other, KeyOp, new_key_op, value,
  pointer, Queue, add_service, update_service, delete_service,
}

-- `delete(m, key)`
unfoldable pub without : Text → List (Text × Service) → List (Text × Service)
without key [] = []
without key (entry ∷ m) =
    let rest = without key m in if text_eq entry.0 key then rest else entry ∷ rest

module _ (T : ExportTarget) (Q : Queue) where
  pub record State : Type 0 where
    pub cache_olds : List (Text × Service)
    pub queue : Q.Pending
    pub world : T.World

  module _ (namespaces : List Text) (key_of deleted_key_of : Object → Option Text) where
    -- a namespace that is not watched
    ignored : Service → Bool
    unfolding string_in_slice
    ignored s = not (length namespaces == 0) && not (string_in_slice s.namespace namespaces)

    enqueue : Operation → Object → Option Text → Object → State → State
    unfolding ignored
    enqueue op obj none checked s = s
    enqueue op obj (some key) other s = s
    enqueue op obj (some key) (service svc) s =
        if ignored svc then s else record s { queue = Q.add (new_key_op key obj op) s.queue }

    -- AddFunc
    unfoldable pub on_add : Object → State → State
    unfolding enqueue
    on_add obj s = enqueue add_op obj (key_of obj) obj s

    remember : Option Text → Object → State → State
    unfolding ignored
    remember none old s = s
    remember (some key) other s = s
    remember (some key) (service svc) s =
        if ignored svc then s else record s { cache_olds = (key, svc) ∷ s.cache_olds }

    -- UpdateFunc: the key is the new object's, and the old one is looked at
    unfoldable pub on_update : Object → Object → State → State
    unfolding enqueue remember
    on_update old new s = enqueue update_op new (key_of new) old (remember (key_of new) old s)

    -- DeleteFunc
    unfoldable pub on_delete : Object → State → State
    unfolding enqueue
    on_delete obj s = enqueue delete_op obj (deleted_key_of obj) obj s

  -- the end of processNextItem; Forget is handed the address of the item
  unfoldable pub concluded : KeyOp → Run (Unit {0}) → Act State Bool
  concluded ko (ok u) s = (ok true, record s { queue = Q.forget (pointer ko) s.queue })
  concluded ko (err e) s = (ok true, s)
  concluded ko panic s = (panic, s)

  -- an update that succeeded needs the old Service no more
  unfoldable pub clear_old : KeyOp → Run (Unit {0}) → State → State
  unfolding without
  clear_old ko (ok u) s = record s { cache_olds = without ko.key s.cache_olds }
  clear_old ko (err e) s = s
  clear_old ko panic s = s

  -- an operation that needs the object of the index
  unfoldable pub process_indexed :
      (KeyOp → Service → Act State Bool) → KeyOp → Indexed → Act State Bool
  process_indexed f ko lookup_failed s = (ok true, record s { queue = Q.forget (value ko) s.queue })
  process_indexed f ko absent s = (ok true, record s { queue = Q.forget (value ko) s.queue })
  process_indexed f ko not_service s = (ok true, s)
  process_indexed f ko (found svc) s = f ko svc s

  -- the test of runWorker's loop
  unfoldable pub worker_next :
      (State → Option (Run (Unit {0})) × State) → Run Bool → State → Option (Run (Unit {0})) × State
  worker_next again (ok true) s = again s
  worker_next again (ok false) s = (some (ok tt), s)
  worker_next again (err e) s = (some (err e), s)
  worker_next again panic s = (some panic, s)

  module _ (unmarshal : Text → Option Json) (cluster_id : Text) (index : Text → Indexed) where
    -- the cases of the switch
    unfoldable pub process_add : KeyOp → Service → Act State Bool
    unfolding concluded
    process_add ko svc s =
        let (r, w) = add_service T unmarshal cluster_id index svc s.world in
        concluded ko r (record s { world = w })

    unfoldable pub process_update : KeyOp → Service → Act State Bool
    unfolding concluded clear_old
    process_update ko svc s =
        let (r, w) =
          update_service T unmarshal cluster_id index (lookup ko.key s.cache_olds) svc s.world in
        concluded ko r (clear_old ko r (record s { world = w }))

    -- `keyOpTyped.Obj.(*v1.Service)` panics on another object
    unfoldable pub process_delete : KeyOp → Object → Act State Bool
    unfolding concluded
    process_delete ko other s = (panic, s)
    process_delete ko (service svc) s =
        let (r, w) = delete_service T unmarshal cluster_id index (some svc) s.world in
        concluded ko r (record s { world = w })

    unfoldable pub process_item : Operation → KeyOp → Act State Bool
    unfolding process_indexed
    process_item add_op ko s = process_indexed process_add ko (index ko.key) s
    process_item update_op ko s = process_indexed process_update ko (index ko.key) s
    process_item delete_op ko s = process_delete ko ko.obj s

    -- false when the queue was empty
    unfoldable pub process_got : Option KeyOp → Act State Bool
    process_got none s = (ok false, s)
    process_got (some ko) s = process_item ko.operation ko s

    unfoldable pub process_next_item : Act State Bool
    process_next_item s = let (item, q) = Q.get s.queue in process_got item (record s { queue = q })

    -- runWorker, on fuel; `none` when that ran out
    unfoldable pub run_worker : ℕ → State → Option (Run (Unit {0})) × State
    run_worker zero s = (none, s)
    run_worker (suc fuel) s =
        let (r, s') = process_next_item s in worker_next (run_worker fuel) r s'
