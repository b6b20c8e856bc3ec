-- ===== src/Queue/Reported.antt =====
-- What the priority queue's metrics are told. A sound state: the queue is valid, and no item that waits has been
-- at work.
pub mod Adding
pub mod Taking
pub mod Forgetting
pub mod Histories
mod Examples
use kube_service_exporter.Base.{
  ℕ, ◌<◌, ◌≡◌, sym, ap, ◌∙◌, inl, inr, Bool, false, Option, none, some, List, Bool-cases, length,
  Text, lookup,
}
use kube_service_exporter.Go.Run.{ok}
use kube_service_exporter.Queue.{
  PriorityQueue, new_priority_queue, find, drop_key, taken_from, add, get, forget, failed, is_known,
}
use kube_service_exporter.Queue.Heap.{Item, ItemHeap, heap_push, heap_pop, heap_remove, at}
use kube_service_exporter.Queue.Metrics.{
  StatsdQueueMetrics, metrics_add, metrics_get, metrics_forget, same_item, add-starts, get-starts,
  forget-missing,
}
use kube_service_exporter.Queue.Slots.{ptr, at-ptr}
use kube_service_exporter.Queue.Order.{IsWeakOrder}
use kube_service_exporter.Queue.Moved.{content, content-some}
use kube_service_exporter.Queue.Container.{Removed}
use kube_service_exporter.Queue.Remove.{heap_pop-Removed, heap_remove-Removed}
use kube_service_exporter.Queue.Push.{Pushed, heap_push-Pushed}
use kube_service_exporter.Queue.Lookup.{IsEquality, find-cons, find-drop_key, find-drop_other}
use kube_service_exporter.Queue.Valid.{
  IsValid, Agrees-bound, Pushed-Agrees, Removed-Agrees, value_inj,
}
use kube_service_exporter.Queue.Spec.{Call, add_call, get_call, forget_call, failed_call}
use kube_service_exporter.Queue.Runs.{perform, run_calls, new-IsValid}
use kube_service_exporter.Queue.Metered.{
  TimedCall, add_at, get_at, forget_at, failed_at, statsd_metrics, MeteredQueue, new_metered_queue,
  add_found, metered_add, metered_get, forget_found, metered_forget, metered_answer,
  perform_metered, run_metered,
}

-- the call without its times
abbrev pub plain : {V P : Type 0} → TimedCall V P → Call V P
plain (add_at now v x) = add_call v x
plain (get_at now later) = get_call
plain (forget_at now v) = forget_call v
plain (failed_at v) = failed_call v

module _ {V P : Type 0} (same : V → V → Bool) (lt : P → P → Bool) (show_priority : P → Text) where
  abbrev pub Reporting : Type 0
  Reporting = MeteredQueue same lt (statsd_metrics {V = V} show_priority)

  -- a time at which work on the item at `p` began
  abbrev pub begun : Reporting → ℕ → Option ℕ
  begun s p = find same_item p s.metrics.processing_start_times

  -- the queue is valid, and no item that waits has been at work
  pub record Sound (s : Reporting) : Type 0 where
    pub valid : IsValid same lt s.queue
    pub fresh : (v : V) (p : ℕ) → find same v s.queue.lookup ≡ some p → begun s p ≡ none
    pub bounded : (p t : ℕ) → begun s p ≡ some t → p < length s.queue.items.store

  -- what a call leaves: a sound queue, and the answer and the queue of the call without metrics
  pub record Reported (s : Reporting) (c : TimedCall V P) (r : Option V × Reporting) : Type 0 where
    pub sound : Sound r.1
    pub plainly : perform same lt (plain c) s.queue ≡ ok (r.0, r.1.queue)

module _ {V : Type 0} (same : V → V → Bool) (law : IsEquality same) where
  pub find-drop_some :
      (v w : V) (table : List (V × ℕ)) (p : ℕ)
      → find same w (drop_key same v table) ≡ some p
      → (same v w ≡ false) × (find same w table ≡ some p)
  find-drop_some v w table p e = elim (Bool-cases (same v w)) [
    | inl here ↦ absurd (
        none-some (
          sym (find-drop_key same v table)
          ∙ ap (λ k. find same k (drop_key same v table)) (law.sound v w here)
          ∙ e))
    | inr other ↦ (other, sym (find-drop_other same v w table law other) ∙ e)
  ]
    where
      none-some : none ≡ some p → ⊥
      none-some f = cc
