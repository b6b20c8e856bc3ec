-- ===== src/ServiceWatcher/Twice.antt =====
-- Two updates of one Service in the queue: the first one's success takes from the second the old
-- Service that it needs.
use kube_service_exporter.Base.{
  ◌≡◌, refl, ◌∙◌, inl, inr, true, Option, none, some, List, [], ◌∷◌, Bool-cases, Text, lookup,
  text_eq,
}
use kube_service_exporter.Go.Run.{Error, ok}
use kube_service_exporter.Go.Json.{Json}
use kube_service_exporter.Kube.{Service}
use kube_service_exporter.Export.{Indexed, found}
use kube_service_exporter.ServiceWatcher.{update_op, KeyOp, Queue, update_service}
use kube_service_exporter.ServiceWatcher.Calls.{Call, recorder}
use kube_service_exporter.ServiceWatcher.Process.{
  State, without, concluded, clear_old, process_update, process_indexed, process_item, process_got,
  process_next_item,
}
use kube_service_exporter.ServiceWatcher.Panics.{is_panic, process_next_item-panics}

lookup-without : (key : Text) (m : List (Text × Service)) → lookup key (without key m) ≡ none
unfolding lookup without
lookup-without key [] = refl
lookup-without key ((j, svc) ∷ m) = elim (Bool-cases (text_eq j key)) [
  | inl same ↦ rw same (lookup-without key m)
  | inr apart ↦ rw (apart, apart) (lookup-without key m)
]

module _ (refuses : Call → Option Error) (Q : Queue) (unmarshal : Text → Option Json)
    (cluster_id : Text) (index : Text → Indexed) where
  -- a successful update forgets the old Service
  pub process_next_item-clears :
      (s : State (recorder refuses) Q) (ko : KeyOp) (svc : Service)
      → (Q.get s.queue).0 ≡ some ko
      → ko.operation ≡ update_op
      → index ko.key ≡ found svc
      → (update_service
          (recorder refuses)
          unmarshal
          cluster_id
          index
          (lookup ko.key s.cache_olds)
          svc
          s.world).0
        ≡ ok tt
      → (process_next_item (recorder refuses) Q unmarshal cluster_id index s).1.cache_olds
        ≡ without ko.key s.cache_olds
  unfolding process_next_item process_got process_item process_indexed process_update clear_old
      concluded
  process_next_item-clears s ko svc item op at done = rw item (rw op (rw at (rw done refl)))

  -- Let two updates of one key stand in the queue, one taken right after the other, and let the index
  -- have the Service. On the target that writes down its calls, if the first update returns no error,
  -- processNextItem panics on the second.
  pub process_next_item-twice :
      (s : State (recorder refuses) Q) (ko ko' : KeyOp) (svc : Service)
      → (Q.get s.queue).0 ≡ some ko
      → ko.operation ≡ update_op
      → index ko.key ≡ found svc
      → (update_service
          (recorder refuses)
          unmarshal
          cluster_id
          index
          (lookup ko.key s.cache_olds)
          svc
          s.world).0
        ≡ ok tt
      → (Q.get (process_next_item (recorder refuses) Q unmarshal cluster_id index s).1.queue).0
        ≡ some ko'
      → ko'.operation ≡ update_op
      → ko'.key ≡ ko.key
      → is_panic
          (process_next_item
            (recorder refuses)
            Q
            unmarshal
            cluster_id
            index
            (process_next_item (recorder refuses) Q unmarshal cluster_id index s).1).0
        ≡ true
  process_next_item-twice s ko ko' svc item op at done item' op' same =
      let s' = (process_next_item (recorder refuses) Q unmarshal cluster_id index s).1 in
      process_next_item-panics refuses Q unmarshal cluster_id index s'
      ∙ rw
          (
            item',
            process_next_item-clears s ko svc item op at done,
            op',
            same,
            lookup-without ko.key s.cache_olds,
            at,
          )
          refl
