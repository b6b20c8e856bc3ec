-- ===== src/Queue/Delaying.antt =====
-- pkg/queue/delaying_queue_statsd.go: the work queue of client-go, with metrics. The work queue is a
-- parameter; the state is that of the queue with what has been sent.
use kube_service_exporter.Base.{ℕ, Bool, Option, List, [], ◌∷◌, ◌++◌, Text, codes}
use kube_service_exporter.Stats.{Sample, incr, gauge}
use kube_service_exporter.Queue.Metrics.{metric_with_prefix}

-- workqueue.RateLimitingInterface; Get returns nothing on shutdown
pub record RateLimiting : Type 1 where
  pub Pending : Type 0
  pub Item : Type 0
  pub add : Item → Pending → Pending
  pub add_after : Item → ℕ → Pending → Pending
  pub add_rate_limited : Item → Pending → Pending
  pub forget : Item → Pending → Pending
  pub num_requeues : Item → Pending → ℕ
  pub len : Pending → ℕ
  pub get : Pending → Option Item × Pending
  pub done : Item → Pending → Pending
  pub shut_down : Pending → Pending
  pub shut_down_with_drain : Pending → Pending
  pub shutting_down : Pending → Bool

module _ (prefix : Text) (Q : RateLimiting) where
  open Q use {Pending, Item}

  abbrev pub Metered : Type 0
  Metered = Pending × List Sample

  -- `stats.Client().Incr(dqs.metricWithPrefix(name), tags, 1.0)`
  unfoldable pub counted : Text → List Text → Metered → Metered
  counted name tags (q, sent) = (q, sent ++ incr (metric_with_prefix prefix name) tags ∷ [])

  -- the gauge of the queue's length
  unfoldable pub measured : Metered → Metered
  measured (q, sent) =
      (q, sent ++ gauge (metric_with_prefix prefix (codes "queue.length")) (Q.len q) [] ∷ [])

  unfoldable pub delaying_add : Item → Metered → Metered
  unfolding counted measured
  delaying_add item (q, sent) = measured (counted (codes "queue.add") [] (Q.add item q, sent))

  unfoldable pub delaying_add_after : Item → ℕ → Metered → Metered
  unfolding counted measured
  delaying_add_after item duration (q, sent) =
      measured (counted (codes "queue.add_after") [] (Q.add_after item duration q, sent))

  unfoldable pub delaying_add_rate_limited : Item → Metered → Metered
  unfolding counted
  delaying_add_rate_limited item (q, sent) =
      counted (codes "queue.add_rate_limited") [] (Q.add_rate_limited item q, sent)

  unfoldable pub delaying_forget : Item → Metered → Metered
  unfolding counted measured
  delaying_forget item (q, sent) =
      measured (counted (codes "queue.forget") [] (Q.forget item q, sent))

  unfoldable pub delaying_num_requeues : Item → Metered → ℕ
  delaying_num_requeues item (q, sent) = Q.num_requeues item q

  unfoldable pub delaying_len : Metered → ℕ × Metered
  unfolding measured
  delaying_len (q, sent) = (Q.len q, measured (q, sent))

  -- Get counts and measures before it takes the item
  unfoldable pub delaying_get : Metered → Option Item × Metered
  unfolding counted measured
  delaying_get s =
      let (q, sent) = measured (counted (codes "queue.add") [] s) in
      let (item, q') = Q.get q in (item, (q', sent))

  unfoldable pub delaying_done : Item → Metered → Metered
  unfolding counted measured
  delaying_done item (q, sent) = measured (counted (codes "queue.done") [] (Q.done item q, sent))

  unfoldable pub delaying_shut_down : Metered → Metered
  unfolding counted
  delaying_shut_down s =
      let (q, sent) = counted (codes "queue.shutdown") (codes "drain:false" ∷ []) s in
      (Q.shut_down q, sent)

  unfoldable pub delaying_shut_down_with_drain : Metered → Metered
  unfolding counted
  delaying_shut_down_with_drain s =
      let (q, sent) = counted (codes "queue.shutdown") (codes "drain:true" ∷ []) s in
      (Q.shut_down_with_drain q, sent)

  unfoldable pub delaying_shutting_down : Metered → Bool
  delaying_shutting_down (q, sent) = Q.shutting_down q
