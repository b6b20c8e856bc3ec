-- ===== src/Queue/Reported/Histories.antt =====
-- The queue with its metrics over any sequence of calls.
use kube_service_exporter.Base.{ℕ, ◌≡◌, refl, Bool, Option, none, some, List, [], ◌∷◌, map, Text}
use kube_service_exporter.Go.Run.{Gives, gives, Gives-bind, Gives-map, ok}
use kube_service_exporter.Queue.{new_priority_queue, find, failed}
use kube_service_exporter.Stats.{Sample}
use kube_service_exporter.Queue.Metrics.{new_statsd_queue_metrics}
use kube_service_exporter.Queue.Order.{IsWeakOrder}
use kube_service_exporter.Queue.Lookup.{IsEquality}
use kube_service_exporter.Queue.Runs.{perform, run_calls, new-IsValid}
use kube_service_exporter.Queue.Metered.{
  TimedCall, add_at, get_at, forget_at, failed_at, statsd_metrics, new_metered_queue,
  metered_forget, perform_metered, run_metered,
}
use kube_service_exporter.Queue.Reported.{plain, Reporting, Sound, Reported}
use kube_service_exporter.Queue.Reported.Adding.{add-Reported}
use kube_service_exporter.Queue.Reported.Taking.{get-Reported}
use kube_service_exporter.Queue.Reported.Forgetting.{Forgotten, forget-Forgotten}

module _ {V P : Type 0} (same : V → V → Bool) (lt : P → P → Bool) (show_priority : P → Text)
    (law : IsEquality same) (order : IsWeakOrder lt) where
  Forgotten-Reported :
      (now : ℕ) (v : V) (s s' : Reporting same lt show_priority)
      → Forgotten same lt show_priority law order s v s'
      → Reported same lt show_priority s (forget_at now v) (none, s')
  unfolding perform
  Forgotten-Reported now v s s' f = record { sound = f.sound; plainly = rw f.plainly refl }

  failed-Reported :
      (v : V) (s : Reporting same lt show_priority)
      → Sound same lt show_priority s
      → Reported same lt show_priority s
          (failed_at v)
          (none, record s { queue = failed same lt v s.queue })
  unfolding perform failed
  failed-Reported v s sound = record {
    sound = record {
      valid = sound.valid;
      fresh = λ w p found. sound.fresh w p found;
      bounded = λ p t found. sound.bounded p t found;
    };
    plainly = refl;
  }

  -- a call with metrics keeps the queue sound, and does to the queue what it does without metrics
  pub perform_metered-Reported :
      (c : TimedCall V P) (s : Reporting same lt show_priority)
      → Sound same lt show_priority s
      → Gives
          (Reported same lt show_priority s c)
          (perform_metered same lt (statsd_metrics show_priority) c s)
  perform_metered-Reported (add_at now v x) s sound =
      add-Reported same lt show_priority law order now v x s sound
  perform_metered-Reported (get_at now later) s sound =
      get-Reported same lt show_priority law order now later s sound
  perform_metered-Reported (forget_at now v) s sound =
      unfold perform_metered in
      Gives-bind (forget-Forgotten same lt show_priority law order now v s sound)
        λ s' f. gives (Forgotten-Reported now v s s' f)
  perform_metered-Reported (failed_at v) s sound =
      unfold perform_metered in gives (failed-Reported v s sound)

  -- so it is over any sequence of calls
  pub record Plainly (calls : List (TimedCall V P)) (s : Reporting same lt show_priority)
      (r : List (Option V) × Reporting same lt show_priority) : Type 0 where
    pub sound : Sound same lt show_priority r.1
    pub plainly : run_calls same lt (map plain calls) s.queue ≡ ok (r.0, r.1.queue)

  Reported-Plainly :
      (c : TimedCall V P) (calls : List (TimedCall V P)) (s : Reporting same lt show_priority)
      (r : Option V × Reporting same lt show_priority)
      (r' : List (Option V) × Reporting same lt show_priority)
      → Reported same lt show_priority s c r
      → Plainly calls r.1 r'
      → Plainly (c ∷ calls) s (r.0 ∷ r'.0, r'.1)
  unfolding run_calls
  Reported-Plainly c calls s r r' p q = record {
    sound = q.sound;
    plainly = rw (p.plainly, q.plainly) refl;
  }

  nothing-Plainly :
      (s : Reporting same lt show_priority) → Sound same lt show_priority s → Plainly [] s ([], s)
  unfolding run_calls
  nothing-Plainly s sound = record { sound = sound; plainly = refl }

  pub run_metered-Plainly :
      (calls : List (TimedCall V P)) (s : Reporting same lt show_priority)
      → Sound same lt show_priority s
      → Gives (Plainly calls s) (run_metered same lt (statsd_metrics show_priority) calls s)
  unfolding run_metered
  run_metered-Plainly [] s sound = gives (nothing-Plainly s sound)
  run_metered-Plainly (c ∷ calls) s sound = Gives-bind (perform_metered-Reported c s sound) λ r p.
      Gives-bind (run_metered-Plainly calls r.1 p.sound)
        λ r' q. gives (Reported-Plainly c calls s r r' p q)

  -- the metrics at the start, with what has been sent before
  abbrev pub start : List Sample → Text → Reporting same lt show_priority
  start sent prefix =
      new_metered_queue same lt (statsd_metrics show_priority)
        (new_statsd_queue_metrics sent prefix)

  start-Sound :
      (sent : List Sample) (prefix : Text) → Sound same lt show_priority (start sent prefix)
  unfolding new_metered_queue new_statsd_queue_metrics new_priority_queue find
  start-Sound sent prefix = record {
    valid = new-IsValid same lt law order;
    fresh = λ v p found. refl;
    bounded = λ p t found. none-some found;
  }
    where
      none-some : {A : Type 0} {t : ℕ} → none ≡ some t → A
      none-some e = cc

  -- From a new queue with statsd metrics on, any sequence of calls of Add, Get, Forget and Failed runs without
  -- a panic and answers what the queue without metrics answers to the same calls, whatever the times
  -- are. Keys are told apart by equality, and the comparison of priorities is a weak order.
  pub run_metered-run_calls :
      (sent : List Sample) (prefix : Text) (calls : List (TimedCall V P))
      → Gives
          (λ r. run_calls same lt (map plain calls) (new_priority_queue V P) ≡ ok (r.0, r.1.queue))
          (run_metered same lt (statsd_metrics show_priority) calls (start sent prefix))
  unfolding new_metered_queue
  run_metered-run_calls sent prefix calls =
      Gives-map (run_metered-Plainly calls (start sent prefix) (start-Sound sent prefix))
        λ r p. p.plainly

  -- Behind any sequence of calls of Add, Get, Forget and Failed from a new queue with statsd metrics on, Forget
  -- returns and leaves the metrics as they are, whatever its value is: it sends nothing, and no entry of
  -- processingStartTimes is ever deleted. Keys are told apart by equality, and the comparison of
  -- priorities is a weak order.
  pub metered_forget-silent :
      (sent : List Sample) (prefix : Text) (calls : List (TimedCall V P)) (now : ℕ) (v : V)
      → Gives
          (λ r.
            Gives
              (λ s'. s'.metrics ≡ r.1.metrics)
              (metered_forget same lt (statsd_metrics show_priority) now v r.1))
          (run_metered same lt (statsd_metrics show_priority) calls (start sent prefix))
  metered_forget-silent sent prefix calls now v =
      Gives-map (run_metered-Plainly calls (start sent prefix) (start-Sound sent prefix)) λ r p.
        Gives-map (forget-Forgotten same lt show_priority law order now v r.1 p.sound)
          λ s' f. f.silent
