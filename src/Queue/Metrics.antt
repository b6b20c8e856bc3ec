-- ===== src/Queue/Metrics.antt =====
-- pkg/queue/metrics.go: what the priority queue reports of its items. An item is known by its address, a
-- place of the store. A time is a number of nanoseconds; where time.Since reads the clock once more, the
-- later time is an argument of its own.
use kube_service_exporter.Base.{
  ℕ, ◌-◌, ◌≡◌, refl, ◌∙◌, inl, inr, Bool, true, false, Option, none, some, List, [], ◌∷◌, ◌++◌,
  append_assoc, arith, ◌==◌, if◌then◌else◌, Bool-cases, All, Text, codes, is_empty,
}
use kube_service_exporter.Stats.{Sample, gauge, incr, distribution_ms}
use kube_service_exporter.Queue.{find, drop_key}
use kube_service_exporter.Queue.Heap.{Item}
use kube_service_exporter.Queue.Lookup.{IsEquality, find-cons, find-drop_key, find-drop_other}

-- metricWithPrefix
unfoldable pub metric_with_prefix : Text → Text → Text
metric_with_prefix prefix metric = if is_empty prefix then metric else prefix ++ (b'.' ∷ metric)

abbrev pub same_item : ℕ → ℕ → Bool
same_item p q = p == q

same_item-IsEquality : IsEquality same_item
same_item-IsEquality = record { sound = λ a b e. ground arith; reflexive = λ a. ground arith }

pub record StatsdQueueMetrics : Type 0 where
  pub sent : List Sample
  pub add_times : List (ℕ × ℕ)
  pub processing_start_times : List (ℕ × ℕ)
  pub prefix : Text

unfoldable pub new_statsd_queue_metrics : List Sample → Text → StatsdQueueMetrics
new_statsd_queue_metrics sent prefix = record {
  sent = sent;
  add_times = [];
  processing_start_times = [];
  prefix = prefix;
}

-- a time at which the work on the item at `p` began is kept
abbrev pub Kept : ℕ → StatsdQueueMetrics → Type 0
Kept p m = (start : ℕ) × (find same_item p m.processing_start_times ≡ some start)

module _ (V P : Type 0) where
  -- the calls of the queue, with the item that each is about
  pub data Event : Type 0 where
    added taken : ℕ → ℕ → Item V P → ℕ → Event
    forgotten : ℕ → ℕ → Item V P → Event

-- `if _, exists := m.addTimes[item]; !exists`
started_at : ℕ → ℕ → List (ℕ × ℕ) → Option ℕ → List (ℕ × ℕ)
started_at p now times none = (p, now) ∷ times
started_at p now times (some t) = times

module _ {V P : Type 0} (show_priority : P → Text) where
  unfoldable pub priority_tag : Item V P → List Text
  priority_tag it = (codes "priority:" ++ show_priority it.priority) ∷ []

  unfoldable pub metrics_add : ℕ → ℕ → Item V P → ℕ → StatsdQueueMetrics → StatsdQueueMetrics
  unfolding priority_tag started_at
  metrics_add now p it queue_length m = record m {
    sent =
        m.sent
        ++ incr (metric_with_prefix m.prefix (codes "queue.adds")) (priority_tag it)
          ∷ gauge (metric_with_prefix m.prefix (codes "queue.length")) queue_length
              (priority_tag it)
          ∷ [];
    add_times = started_at p now m.add_times (find same_item p m.add_times);
  }

  -- what get does about the time of the addition
  waited : ℕ → ℕ → Item V P → StatsdQueueMetrics → Option ℕ → StatsdQueueMetrics
  unfolding priority_tag
  waited later p it m none = m
  waited later p it m (some start) = record m {
    sent =
        m.sent
        ++ distribution_ms (metric_with_prefix m.prefix (codes "queue.wait")) (priority_tag it)
            (later - start)
          ∷ [];
    add_times = drop_key same_item p m.add_times;
  }

  unfoldable pub metrics_get : ℕ → ℕ → ℕ → Item V P → ℕ → StatsdQueueMetrics → StatsdQueueMetrics
  unfolding priority_tag waited
  metrics_get now later p it queue_length m =
      waited later p it
        (record m {
          sent =
              m.sent
              ++ gauge (metric_with_prefix m.prefix (codes "queue.length")) queue_length
                  (priority_tag it)
                ∷ [];
          processing_start_times = (p, now) ∷ m.processing_start_times;
        })
        (find same_item p m.add_times)

  processed : ℕ → ℕ → Item V P → StatsdQueueMetrics → Option ℕ → StatsdQueueMetrics
  unfolding priority_tag
  processed later p it m none = m
  processed later p it m (some start) = record m {
    sent =
        m.sent
        ++ distribution_ms (metric_with_prefix m.prefix (codes "queue.duration")) (priority_tag it)
            (later - start)
          ∷ [];
    processing_start_times = drop_key same_item p m.processing_start_times;
  }

  unfoldable pub metrics_forget : ℕ → ℕ → Item V P → StatsdQueueMetrics → StatsdQueueMetrics
  unfolding priority_tag processed
  metrics_forget later p it m = processed later p it m (find same_item p m.processing_start_times)

  get-waited :
      (now later p start : ℕ) (it : Item V P) (l : ℕ) (m : StatsdQueueMetrics)
      → find same_item p m.add_times ≡ some start
      → ((metrics_get now later p it l m).sent
          ≡ m.sent
            ++ gauge (metric_with_prefix m.prefix (codes "queue.length")) l (priority_tag it)
              ∷ distribution_ms
                  (metric_with_prefix m.prefix (codes "queue.wait"))
                  (priority_tag it)
                  (later - start)
              ∷ [])
        × (find same_item p (metrics_get now later p it l m).add_times ≡ none)
  unfolding metrics_get waited
  get-waited now later p start it l m found =
      rw found (append_assoc m.sent _ _, find-drop_key same_item p m.add_times)

  add-found :
      (t p : ℕ) (it : Item V P) (l : ℕ) (m : StatsdQueueMetrics)
      → find same_item p m.add_times ≡ none
      → find same_item p (metrics_add t p it l m).add_times ≡ some t
  unfolding metrics_add started_at
  add-found t p it l m new =
      let here : same_item p p ≡ true = ground arith in
      rw new (find-cons same_item p p t m.add_times ∙ (rw here refl))

  -- An item that is added for the first time and then taken: the time it waited is sent as the last sample,
  -- in milliseconds, under the item's priority, and its time of addition is dropped.
  pub metrics_get-metrics_add :
      (t now later p : ℕ) (it : Item V P) (l l' : ℕ) (m : StatsdQueueMetrics)
      → find same_item p m.add_times ≡ none
      → ((metrics_get now later p it l' (metrics_add t p it l m)).sent
          ≡ (metrics_add t p it l m).sent
            ++ gauge (metric_with_prefix m.prefix (codes "queue.length")) l' (priority_tag it)
              ∷ distribution_ms
                  (metric_with_prefix m.prefix (codes "queue.wait"))
                  (priority_tag it)
                  (later - t)
              ∷ [])
        × (find same_item p (metrics_get now later p it l' (metrics_add t p it l m)).add_times
            ≡ none)
  unfolding metrics_add
  metrics_get-metrics_add t now later p it l l' m new =
      get-waited now later p t it l' (metrics_add t p it l m) (add-found t p it l m new)

  unfoldable pub report : List (Event V P) → StatsdQueueMetrics → StatsdQueueMetrics
  report [] m = m
  report (added now p it l ∷ events) m = report events (metrics_add now p it l m)
  report (taken now p it l ∷ events) m = report events (metrics_get now now p it l m)
  report (forgotten now p it ∷ events) m = report events (metrics_forget now p it m)

  -- an event that does not forget the item at `p`
  abbrev pub Spares : ℕ → Event V P → Type 0
  Spares p (forgotten now q it) = same_item q p ≡ false
  Spares p _ = Unit

  waited-starts :
      (later p : ℕ) (it : Item V P) (m : StatsdQueueMetrics) (o : Option ℕ)
      → (waited later p it m o).processing_start_times ≡ m.processing_start_times
  unfolding waited
  waited-starts later p it m none = refl
  waited-starts later p it m (some t) = refl

  pub add-starts :
      (now p : ℕ) (it : Item V P) (l : ℕ) (m : StatsdQueueMetrics)
      → (metrics_add now p it l m).processing_start_times ≡ m.processing_start_times
  unfolding metrics_add
  add-starts now p it l m = refl

  -- an item that has not been at work is not reported
  pub forget-missing :
      (later p : ℕ) (it : Item V P) (m : StatsdQueueMetrics)
      → find same_item p m.processing_start_times ≡ none
      → metrics_forget later p it m ≡ m
  unfolding metrics_forget processed
  forget-missing later p it m e = rw e refl

  pub get-starts :
      (now later p : ℕ) (it : Item V P) (l : ℕ) (m : StatsdQueueMetrics)
      → (metrics_get now later p it l m).processing_start_times
        ≡ (p, now) ∷ m.processing_start_times
  unfolding metrics_get
  get-starts now later p it l m = waited-starts later p it _ (find same_item p m.add_times)

  get-Kept :
      (now later p q : ℕ) (it : Item V P) (l : ℕ) (m : StatsdQueueMetrics)
      → Kept p m
      → Kept p (metrics_get now later q it l m)
  get-Kept now later p q it l m (start, e) = elim (Bool-cases (same_item q p)) [
    | inl here ↦ (
      now,
      rw (get-starts now later q it l m, find-cons same_item q p now m.processing_start_times, here)
          refl,
    )
    | inr other ↦ (
      start,
      rw
          (
            get-starts now later q it l m,
            find-cons same_item q p now m.processing_start_times,
            other,
          )
          e,
    )
  ]

  forget-Kept :
      (now p q : ℕ) (it : Item V P) (m : StatsdQueueMetrics)
      → same_item q p ≡ false
      → Kept p m
      → Kept p (metrics_forget now q it m)
  unfolding metrics_forget
  forget-Kept now p q it m other (start, e) = go (find same_item q m.processing_start_times)
    where
      go : (o : Option ℕ) → Kept p (processed now q it m o)
      go none = (start, e)
      go (some t) = (
        start,
        find-drop_other same_item q p m.processing_start_times same_item-IsEquality other ∙ e,
      )

  report-Kept :
      (p : ℕ) (events : List (Event V P)) (m : StatsdQueueMetrics)
      → All (Spares p) events
      → Kept p m
      → Kept p (report events m)
  unfolding report metrics_add
  report-Kept p [] m spared k = k
  report-Kept p (added now q it l ∷ events) m spared k =
      report-Kept p events (metrics_add now q it l m) spared.1 k
  report-Kept p (taken now q it l ∷ events) m spared k =
      report-Kept p events (metrics_get now now q it l m) spared.1 (get-Kept now now p q it l m k)
  report-Kept p (forgotten now q it ∷ events) m spared k =
      report-Kept p events (metrics_forget now q it m) spared.1
        (forget-Kept now p q it m spared.0 k)

  -- The entry that Get makes for an item in processingStartTimes stays for as long as no later call forgets
  -- that item, whatever else is added, taken or forgotten.
  pub report-taken :
      (now p : ℕ) (it : Item V P) (l : ℕ) (events : List (Event V P)) (m : StatsdQueueMetrics)
      → All (Spares p) events
      → Kept p (report (taken now p it l ∷ events) m)
  unfolding report
  report-taken now p it l events m spared =
      let here : same_item p p ≡ true = ground arith in
      report-Kept p events (metrics_get now now p it l m) spared (
        now,
        rw (get-starts now now p it l m, find-cons same_item p p now m.processing_start_times, here)
            refl,
      )
