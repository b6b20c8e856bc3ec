-- ===== src/Exporter/Keeps.antt =====
-- What every call on a target keeps, the service watcher keeps: a relation between the states of the
-- target's world before and after a call.
use kube_service_exporter.Base.{
  ℕ, zero, suc, ◌≡◌, refl, Bool, true, false, not, Option, none, some, List, [], ◌∷◌, map, Text,
  lookup,
}
use kube_service_exporter.Go.Run.{Run, ok, err, panic}
use kube_service_exporter.Go.Act.{Act}
use kube_service_exporter.Go.Keeps.{Preorder, Keeps, Keeps-pure, Keeps-lift, Keeps-bind, Keeps-if}
use kube_service_exporter.Go.Json.{Json}
use kube_service_exporter.Kube.{Service}
use kube_service_exporter.Util.{string_in_slice}
use kube_service_exporter.Export.{
  ExportedService, id, is_exportable_service, Indexed, lookup_failed, absent, not_service, found,
}
use kube_service_exporter.ExportTarget.{ExportTarget}
use kube_service_exporter.ServiceWatcher.{
  Operation, add_op, update_op, delete_op, Object, service, other, KeyOp, Queue, ignore, former,
  create_each, update_each, delete_removed, delete_each, exported_of, olds_of, add_service,
  update_service, delete_service,
}
use kube_service_exporter.ServiceWatcher.Process.{
  State, concluded, clear_old, process_add, process_update, process_delete, process_indexed,
  process_item, process_got, process_next_item, worker_next, run_worker,
}

-- every call of the service watcher on the target keeps `R`
pub record Steady (T : ExportTarget) (R : T.World → T.World → Type 0) : Type 0 where
  pub order : Preorder R
  pub on_create : (es : ExportedService) → Keeps R (T.create es)
  pub on_update : (old : Option ExportedService) (es : ExportedService) → Keeps R (T.update old es)
  pub on_delete : (es : ExportedService) → Keeps R (T.delete es)

module _ (T : ExportTarget) (R : T.World → T.World → Type 0) (steady : Steady T R) where
  open T use {World}
  open steady use {order}

  ignore-Keeps : (m : Act World (Unit {0})) → Keeps R m → Keeps R (ignore m)
  ignore-Keeps m h = record { at = h.at }

  create_each-Keeps : (l : List ExportedService) → Keeps R (create_each T l)
  unfolding create_each
  create_each-Keeps [] = Keeps-pure R order tt
  create_each-Keeps (es ∷ l) =
      Keeps-bind R order (ignore-Keeps (T.create es) (steady.on_create es)) λ u. create_each-Keeps l

  delete_each-Keeps : (l : List ExportedService) → Keeps R (delete_each T l)
  unfolding delete_each
  delete_each-Keeps [] = Keeps-pure R order tt
  delete_each-Keeps (es ∷ l) =
      Keeps-bind R order (ignore-Keeps (T.delete es) (steady.on_delete es)) λ u. delete_each-Keeps l

  update_each-Keeps : (olds news l : List ExportedService) → Keeps R (update_each T olds news l)
  unfolding update_each
  update_each-Keeps olds news [] = Keeps-pure R order tt
  update_each-Keeps olds news (es ∷ l) =
      Keeps-bind R order (steady.on_update (former olds news es) es)
        λ u. update_each-Keeps olds news l

  delete_removed-Keeps :
      (ids : List Text) (l : List ExportedService) → Keeps R (delete_removed T ids l)
  unfolding delete_removed
  delete_removed-Keeps ids [] = Keeps-pure R order tt
  delete_removed-Keeps ids (es ∷ l) =
      Keeps-bind R order
        (Keeps-if R order (string_in_slice (id es) ids) (Keeps-pure R order tt)
          (ignore-Keeps (T.delete es) (steady.on_delete es)))
        λ u. delete_removed-Keeps ids l

  module _ (unmarshal : Text → Option Json) (cluster_id : Text) (index : Text → Indexed) where
    pub add_service-Keeps : (s : Service) → Keeps R (add_service T unmarshal cluster_id index s)
    unfolding add_service
    add_service-Keeps s = Keeps-if R order (not (is_exportable_service s)) (Keeps-pure R order tt) (
        Keeps-bind R order (Keeps-lift R order (exported_of unmarshal cluster_id index s))
          create_each-Keeps)

    pub delete_service-Keeps :
        (s : Option Service) → Keeps R (delete_service T unmarshal cluster_id index s)
    unfolding delete_service
    delete_service-Keeps s =
        Keeps-bind R order (Keeps-lift R order (olds_of unmarshal cluster_id index s))
          delete_each-Keeps

    pub update_service-Keeps :
        (old : Option Service) (new : Service)
        → Keeps R (update_service T unmarshal cluster_id index old new)
    unfolding update_service
    update_service-Keeps old new =
        Keeps-bind R order
          (Keeps-if R order (not (is_exportable_service new)) (delete_service-Keeps old)
            (Keeps-pure R order tt))
          λ u.
            Keeps-bind R order (Keeps-lift R order (olds_of unmarshal cluster_id index old)) λ olds.
              Keeps-bind R order (Keeps-lift R order (exported_of unmarshal cluster_id index new))
                λ news.
                  Keeps-bind R order (update_each-Keeps olds news news)
                    λ u'. delete_removed-Keeps (map id news) olds

    module _ (Q : Queue) where
      -- a turn of the watcher keeps the relation between the worlds of its states
      abbrev Turn : State T Q → State T Q → Type 0
      Turn s s' = R s.world s'.world

      world-concluded :
          (ko : KeyOp) (r : Run (Unit {0})) (s : State T Q)
          → (concluded T Q ko r s).1.world ≡ s.world
      unfolding concluded
      world-concluded ko (ok u) s = refl
      world-concluded ko (err e) s = refl
      world-concluded ko panic s = refl

      world-clear_old :
          (ko : KeyOp) (r : Run (Unit {0})) (s : State T Q) → (clear_old T Q ko r s).world ≡ s.world
      unfolding clear_old
      world-clear_old ko (ok u) s = refl
      world-clear_old ko (err e) s = refl
      world-clear_old ko panic s = refl

      process_add-Turn :
          (ko : KeyOp) (svc : Service) (s : State T Q)
          → Turn s (process_add T Q unmarshal cluster_id index ko svc s).1
      unfolding process_add
      process_add-Turn ko svc s = rw (world-concluded ko _ _) ((add_service-Keeps svc).at s.world)

      process_update-Turn :
          (ko : KeyOp) (svc : Service) (s : State T Q)
          → Turn s (process_update T Q unmarshal cluster_id index ko svc s).1
      unfolding process_update
      process_update-Turn ko svc s =
          rw (world-concluded ko _ _, world-clear_old ko _ _)
            ((update_service-Keeps (lookup ko.key s.cache_olds) svc).at s.world)

      process_delete-Turn :
          (ko : KeyOp) (obj : Object) (s : State T Q)
          → Turn s (process_delete T Q unmarshal cluster_id index ko obj s).1
      unfolding process_delete
      process_delete-Turn ko other s = order.stays s.world
      process_delete-Turn ko (service svc) s =
          rw (world-concluded ko _ _) ((delete_service-Keeps (some svc)).at s.world)

      process_indexed-Turn :
          (f : KeyOp → Service → Act (State T Q) Bool) (ko : KeyOp) (i : Indexed) (s : State T Q)
          → ((svc : Service) → Turn s (f ko svc s).1)
          → Turn s (process_indexed T Q f ko i s).1
      unfolding process_indexed
      process_indexed-Turn f ko lookup_failed s k = order.stays s.world
      process_indexed-Turn f ko absent s k = order.stays s.world
      process_indexed-Turn f ko not_service s k = order.stays s.world
      process_indexed-Turn f ko (found svc) s k = k svc

      process_item-Turn :
          (op : Operation) (ko : KeyOp) (s : State T Q)
          → Turn s (process_item T Q unmarshal cluster_id index op ko s).1
      unfolding process_item
      process_item-Turn add_op ko s =
          process_indexed-Turn (process_add T Q unmarshal cluster_id index) ko (index ko.key) s
            λ svc. process_add-Turn ko svc s
      process_item-Turn update_op ko s =
          process_indexed-Turn (process_update T Q unmarshal cluster_id index) ko (index ko.key) s
            λ svc. process_update-Turn ko svc s
      process_item-Turn delete_op ko s = process_delete-Turn ko ko.obj s

      process_next_item-Turn :
          (s : State T Q) → Turn s (process_next_item T Q unmarshal cluster_id index s).1
      unfolding process_next_item
      process_next_item-Turn s = go (Q.get s.queue).0
        where
          go :
              (item : Option KeyOp)
              → Turn s
                  (process_got T Q unmarshal cluster_id index item
                    (record s { queue = (Q.get s.queue).1 })).1
          go none = unfold process_got in order.stays s.world
          go (some ko) =
              unfold process_got in
              process_item-Turn ko.operation ko (record s { queue = (Q.get s.queue).1 })

      -- a run of the worker keeps what each of its calls keeps
      pub run_worker-Turn :
          (fuel : ℕ) (s : State T Q) → Turn s (run_worker T Q unmarshal cluster_id index fuel s).1
      unfolding run_worker
      run_worker-Turn zero s = order.stays s.world
      run_worker-Turn (suc fuel) s =
          go (process_next_item T Q unmarshal cluster_id index s).0
            (process_next_item T Q unmarshal cluster_id index s).1 (process_next_item-Turn s)
            (run_worker-Turn fuel)
        where
          go :
              (r : Run Bool) (s' : State T Q)
              → Turn s s'
              → ((x : State T Q) → Turn x (run_worker T Q unmarshal cluster_id index fuel x).1)
              → Turn s (worker_next T Q (run_worker T Q unmarshal cluster_id index fuel) r s').1
          go (ok true) s' q k = unfold worker_next in order.joins _ _ _ q (k s')
          go (ok false) s' q k = unfold worker_next in q
          go (err e) s' q k = unfold worker_next in q
          go panic s' q k = unfold worker_next in q
