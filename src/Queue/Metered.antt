-- ===== src/Queue/Metered.antt =====
-- The priority queue with the metrics that it reports to, NewPriorityQueueWithMetrics: Add, Get and Forget
-- call pkg/queue/metrics.go on the item that they are about. The clock is read where a metric reads it, so
-- that times are arguments of the calls.
use kube_service_exporter.Base.{
  ℕ, Bool, Option, none, some, List, [], ◌∷◌, ◌==◌, if◌then◌else◌, length, Text,
}
use kube_service_exporter.Go.Run.{Run, ok, err, panic, ◌>>=◌, empty_queue}
use kube_service_exporter.Queue.{
  PriorityQueue, new_priority_queue, find, drop_key, taken_from, failed,
}
use kube_service_exporter.Queue.Heap.{Item, heap_push, heap_pop, heap_remove, at}
use kube_service_exporter.Queue.Metrics.{
  StatsdQueueMetrics, metrics_add, metrics_get, metrics_forget,
}

-- the interface Metrics: times, the address of the item, the item, and the length of the queue
pub record Metrics (V P : Type 0) : Type 1 where
  pub State : Type 0
  pub on_add : ℕ → ℕ → Item V P → ℕ → State → State
  pub on_get : ℕ → ℕ → ℕ → Item V P → ℕ → State → State
  pub on_forget : ℕ → ℕ → Item V P → State → State

-- NoopMetrics
abbrev pub noop_metrics : (V P : Type 0) → Metrics V P
noop_metrics V P = record {
  State = Unit;
  on_add = λ now p it l m. m;
  on_get = λ now later p it l m. m;
  on_forget = λ now p it m. m;
}

-- StatsdQueueMetrics as an implementation of it
abbrev pub statsd_metrics : {V P : Type 0} → (P → Text) → Metrics V P
statsd_metrics show_priority = record {
  State = StatsdQueueMetrics;
  on_add = metrics_add show_priority;
  on_get = metrics_get show_priority;
  on_forget = metrics_forget show_priority;
}

-- calls of the queue, with the times at which its metrics read the clock
pub data TimedCall (V P : Type 0) : Type 0 where
  add_at : ℕ → V → P → TimedCall V P
  get_at : ℕ → ℕ → TimedCall V P
  forget_at : ℕ → V → TimedCall V P
  failed_at : V → TimedCall V P

module _ {V P : Type 0} (same : V → V → Bool) (lt : P → P → Bool) (M : Metrics V P) where
  pub record MeteredQueue : Type 0 where
    pub queue : PriorityQueue V P
    pub metrics : M.State

  -- NewPriorityQueueWithMetrics
  unfoldable pub new_metered_queue : M.State → MeteredQueue
  new_metered_queue m = record { queue = new_priority_queue V P; metrics = m }

  unfoldable pub add_found : ℕ → V → P → MeteredQueue → Option ℕ → Run MeteredQueue
  unfolding heap_push
  add_found now v x s (some p) = ok s
  add_found now v x s none = do
    let p = length s.queue.items.store
    items ← heap_push lt s.queue.items (record { value = v; priority = x; index = 0 })
    it ← at items.store p
    ok (record {
      queue = record {
        failures = s.queue.failures;
        items = items;
        lookup = (v, p) ∷ s.queue.lookup;
      };
      metrics = M.on_add now p it (length items.slots) s.metrics;
    })

  -- Add
  unfoldable pub metered_add : ℕ → V → P → MeteredQueue → Run MeteredQueue
  unfolding add_found find
  metered_add now v x s = add_found now v x s (find same v s.queue.lookup)

  -- Get
  unfoldable pub metered_get : ℕ → ℕ → MeteredQueue → Run (V × MeteredQueue)
  unfolding taken_from
  metered_get now later s = if length s.queue.items.slots == 0 then err empty_queue else do
    p ← at s.queue.items.slots 0
    r ← heap_pop lt s.queue.items
    ok (
      r.0.value,
      record {
        queue = (taken_from same lt s.queue r).1;
        metrics = M.on_get now later p r.0 (length r.1.slots) s.metrics;
      },
    )

  unfoldable pub forget_found : ℕ → V → MeteredQueue → Option ℕ → Run MeteredQueue
  unfolding drop_key
  forget_found now v s none = ok s
  forget_found now v s (some p) = do
    it ← at s.queue.items.store p
    r ← heap_remove lt s.queue.items it.index
    ok (record {
      queue = record {
        failures = drop_key same v s.queue.failures;
        items = r.1;
        lookup = drop_key same v s.queue.lookup;
      };
      metrics = M.on_forget now p it s.metrics;
    })

  -- Forget
  unfoldable pub metered_forget : ℕ → V → MeteredQueue → Run MeteredQueue
  unfolding forget_found find
  metered_forget now v s = forget_found now v s (find same v s.queue.lookup)

  -- an error of Get leaves the queue as it was
  abbrev pub metered_answer : MeteredQueue → Run (V × MeteredQueue) → Run (Option V × MeteredQueue)
  metered_answer s (ok r) = ok (some r.0, r.1)
  metered_answer s (err e) = ok (none, s)
  metered_answer s panic = panic

  unfoldable pub perform_metered : TimedCall V P → MeteredQueue → Run (Option V × MeteredQueue)
  unfolding metered_add metered_get metered_forget failed
  perform_metered (add_at now v x) s = metered_add now v x s >>= λ s'. ok (none, s')
  perform_metered (get_at now later) s = metered_answer s (metered_get now later s)
  perform_metered (forget_at now v) s = metered_forget now v s >>= λ s'. ok (none, s')
  perform_metered (failed_at v) s = ok (none, record s { queue = failed same lt v s.queue })

  unfoldable pub run_metered :
      List (TimedCall V P) → MeteredQueue → Run (List (Option V) × MeteredQueue)
  unfolding perform_metered
  run_metered [] s = ok ([], s)
  run_metered (c ∷ calls) s =
      perform_metered c s >>= λ r. run_metered calls r.1 >>= λ r'. ok (r.0 ∷ r'.0, r'.1)
