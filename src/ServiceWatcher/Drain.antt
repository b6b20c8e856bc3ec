-- ===== src/ServiceWatcher/Drain.antt =====
-- runWorker comes to an end: each turn of processNextItem takes an item off the queue.
use kube_service_exporter.Base.{
  ℕ, zero, suc, ◌≤◌, ◌<◌, ◌≡◌, refl, Bool, true, false, Option, none, some, arith, Text, lookup,
}
use kube_service_exporter.Go.Run.{Run, ok, err, panic}
use kube_service_exporter.Go.Act.{Act}
use kube_service_exporter.Go.Json.{Json}
use kube_service_exporter.Kube.{Service}
use kube_service_exporter.Export.{Indexed, lookup_failed, absent, not_service, found}
use kube_service_exporter.ExportTarget.{ExportTarget}
use kube_service_exporter.ServiceWatcher.{
  Operation, add_op, update_op, delete_op, Object, service, other, KeyOp, Handle, value, pointer,
  Queue, add_service, update_service, delete_service,
}
use kube_service_exporter.ServiceWatcher.Process.{
  State, concluded, clear_old, process_add, process_update, process_delete, process_indexed,
  process_item, process_got, process_next_item, worker_next, run_worker,
}

-- what the worker relies on: an item that Get returns is off the queue, and Forget adds nothing
pub record Sized (Q : Queue) : Type 0 where
  pub size : Q.Pending → ℕ
  pub get_lt : (q : Q.Pending) (ko : KeyOp) → (Q.get q).0 ≡ some ko → size (Q.get q).1 < size q
  pub forget_le : (h : Handle) (q : Q.Pending) → size (Q.forget h q) ≤ size q

-- the worker has come to an end: on an empty queue, or in a panic
abbrev pub Ended : Option (Run (Unit {0})) → Type 0
Ended none = ⊥
Ended (some (ok u)) = Unit
Ended (some (err e)) = ⊥
Ended (some panic) = Unit

module _ (T : ExportTarget) (Q : Queue) (sized : Sized Q) where
  open sized use {size}

  -- how a turn ends that began with `n` items: with less of them if there is to be another one
  abbrev Shrinks : ℕ → Run Bool × State T Q → Type 0
  Shrinks n (ok true, s) = size s.queue < n
  Shrinks n (ok false, s) = Unit
  Shrinks n (err e, s) = ⊥
  Shrinks n (panic, s) = Unit

  concluded-Shrinks :
      (n : ℕ) (ko : KeyOp) (r : Run (Unit {0})) (s : State T Q)
      → size s.queue < n
      → Shrinks n (concluded T Q ko r s)
  unfolding concluded
  concluded-Shrinks n ko (ok u) s h = omega (arith, h, sized.forget_le (pointer ko) s.queue)
  concluded-Shrinks n ko (err e) s h = h
  concluded-Shrinks n ko panic s h = tt

  size-clear_old :
      (n : ℕ) (ko : KeyOp) (r : Run (Unit {0})) (s : State T Q)
      → size s.queue < n
      → size (clear_old T Q ko r s).queue < n
  unfolding clear_old
  size-clear_old n ko (ok u) s h = h
  size-clear_old n ko (err e) s h = h
  size-clear_old n ko panic s h = h

  process_indexed-Shrinks :
      (n : ℕ) (f : KeyOp → Service → Act (State T Q) Bool) (ko : KeyOp) (i : Indexed)
      (s : State T Q)
      → ((svc : Service) → Shrinks n (f ko svc s))
      → size s.queue < n
      → Shrinks n (process_indexed T Q f ko i s)
  unfolding process_indexed
  process_indexed-Shrinks n f ko lookup_failed s k h =
      omega (arith, h, sized.forget_le (value ko) s.queue)
  process_indexed-Shrinks n f ko absent s k h = omega (arith, h, sized.forget_le (value ko) s.queue)
  process_indexed-Shrinks n f ko not_service s k h = h
  process_indexed-Shrinks n f ko (found svc) s k h = k svc

  module _ (unmarshal : Text → Option Json) (cluster_id : Text) (index : Text → Indexed) where
    process_add-Shrinks :
        (n : ℕ) (ko : KeyOp) (svc : Service) (s : State T Q)
        → size s.queue < n
        → Shrinks n (process_add T Q unmarshal cluster_id index ko svc s)
    unfolding process_add
    process_add-Shrinks n ko svc s h =
        let (r, w) = add_service T unmarshal cluster_id index svc s.world in
        concluded-Shrinks n ko r (record s { world = w }) h

    process_update-Shrinks :
        (n : ℕ) (ko : KeyOp) (svc : Service) (s : State T Q)
        → size s.queue < n
        → Shrinks n (process_update T Q unmarshal cluster_id index ko svc s)
    unfolding process_update
    process_update-Shrinks n ko svc s h =
        let (r, w) =
          update_service T unmarshal cluster_id index (lookup ko.key s.cache_olds) svc s.world in
        let s' : State T Q = record s { world = w } in
        concluded-Shrinks n ko r (clear_old T Q ko r s') (size-clear_old n ko r s' h)

    process_delete-Shrinks :
        (n : ℕ) (ko : KeyOp) (obj : Object) (s : State T Q)
        → size s.queue < n
        → Shrinks n (process_delete T Q unmarshal cluster_id index ko obj s)
    unfolding process_delete
    process_delete-Shrinks n ko other s h = tt
    process_delete-Shrinks n ko (service svc) s h =
        let (r, w) = delete_service T unmarshal cluster_id index (some svc) s.world in
        concluded-Shrinks n ko r (record s { world = w }) h

    process_item-Shrinks :
        (n : ℕ) (op : Operation) (ko : KeyOp) (s : State T Q)
        → size s.queue < n
        → Shrinks n (process_item T Q unmarshal cluster_id index op ko s)
    unfolding process_item
    process_item-Shrinks n add_op ko s h =
        process_indexed-Shrinks n (process_add T Q unmarshal cluster_id index) ko (index ko.key) s
          (λ svc. process_add-Shrinks n ko svc s h) h
    process_item-Shrinks n update_op ko s h =
        process_indexed-Shrinks n (process_update T Q unmarshal cluster_id index) ko (index ko.key)
          s (λ svc. process_update-Shrinks n ko svc s h) h
    process_item-Shrinks n delete_op ko s h = process_delete-Shrinks n ko ko.obj s h

    process_next_item-Shrinks :
        (s : State T Q)
        → Shrinks (size s.queue) (process_next_item T Q unmarshal cluster_id index s)
    unfolding process_next_item
    process_next_item-Shrinks s = go (Q.get s.queue).0 refl
      where
        go :
            (item : Option KeyOp)
            → (Q.get s.queue).0 ≡ item
            → Shrinks (size s.queue) (
                process_got T Q unmarshal cluster_id index item
                  (record s { queue = (Q.get s.queue).1 }))
        go none e = unfold process_got in tt
        go (some ko) e =
            unfold process_got in
            process_item-Shrinks (size s.queue) ko.operation ko _ (sized.get_lt s.queue ko e)

    -- With more fuel than the queue has items, runWorker comes to an end while nothing is added: either
    -- on an empty queue or in a panic.
    pub run_worker-Ended :
        (fuel : ℕ) (s : State T Q)
        → size s.queue < fuel
        → Ended (run_worker T Q unmarshal cluster_id index fuel s).0
    unfolding run_worker
    run_worker-Ended zero s h = absurd (omega arith)
    run_worker-Ended (suc fuel) s h =
        go (process_next_item T Q unmarshal cluster_id index s) (process_next_item-Shrinks s)
          λ s' less. run_worker-Ended fuel s' (omega arith)
      where
        go :
            (p : Run Bool × State T Q)
            → Shrinks (size s.queue) p
            → ((s' : State T Q)
                → size s'.queue < size s.queue
                → Ended (run_worker T Q unmarshal cluster_id index fuel s').0)
            → Ended (worker_next T Q (run_worker T Q unmarshal cluster_id index fuel) p.0 p.1).0
        go (ok true, s') q k = unfold worker_next in k s' q
        go (ok false, s') q k = unfold worker_next in tt
        go (err e, s') q k = absurd q
        go (panic, s') q k = unfold worker_next in tt
