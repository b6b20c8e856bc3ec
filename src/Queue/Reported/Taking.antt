-- ===== src/Queue/Reported/Taking.antt =====
-- Get with its metrics.
use kube_service_exporter.Base.{
  ℕ, ◌<◌, ◌≡◌, refl, sym, ap, ◌∙◌, inl, inr, Bool, true, false, none, some, arith, ◌==◌,
  if◌then◌else◌, Bool-cases, length, Text,
}
use kube_service_exporter.Go.Run.{value_of, Gives, gives, ok}
use kube_service_exporter.Queue.{find, taken_from, get}
use kube_service_exporter.Queue.Heap.{Item, ItemHeap, heap_pop, at}
use kube_service_exporter.Queue.Metrics.{metrics_get, same_item, get-starts}
use kube_service_exporter.Queue.Slots.{ptr, at-ptr}
use kube_service_exporter.Queue.Order.{IsWeakOrder}
use kube_service_exporter.Queue.Moved.{content}
use kube_service_exporter.Queue.Container.{Removed}
use kube_service_exporter.Queue.Remove.{heap_pop-Removed}
use kube_service_exporter.Queue.Lookup.{IsEquality, find-cons}
use kube_service_exporter.Queue.Valid.{Agrees-bound, Removed-Agrees, value_inj}
use kube_service_exporter.Queue.Spec.{get_call}
use kube_service_exporter.Queue.Runs.{perform}
use kube_service_exporter.Queue.Metered.{get_at, statsd_metrics, metered_get, perform_metered}
use kube_service_exporter.Queue.Reported.{Reporting, begun, Sound, Reported, find-drop_some}

module _ {V P : Type 0} (same : V → V → Bool) (lt : P → P → Bool) (show_priority : P → Text)
    (law : IsEquality same) (order : IsWeakOrder lt) where
  -- a value that waits at two places is one value
  held-same :
      (s : Reporting same lt show_priority) (v w : V) (p q : ℕ)
      → Sound same lt show_priority s
      → find same v s.queue.lookup ≡ some p
      → find same w s.queue.lookup ≡ some q
      → p ≡ q
      → same v w ≡ true
  held-same s v w p q sound e f place =
      let (x, there) = (sound.valid.held v p e).1 in
      let (y, here) = (sound.valid.held w q f).1 in
      let at_both : some (v, x) ≡ some (w, y) =
        sym there ∙ ap (content s.queue.items.store) place ∙ here in
      rw (value_inj same lt law at_both) (law.reflexive w)

  -- what Get leaves
  abbrev shrunk :
      ℕ
      → ℕ
      → ℕ
      → Reporting same lt show_priority
      → Item V P × ItemHeap V P
      → Reporting same lt show_priority
  shrunk now later p s r = record {
    queue = (taken_from same lt s.queue r).1;
    metrics = metrics_get show_priority now later p r.0 (length r.1.slots) s.metrics;
  }

  shrunk-begun :
      (now later p : ℕ) (s : Reporting same lt show_priority) (r : Item V P × ItemHeap V P) (q : ℕ)
      → begun same lt show_priority (shrunk now later p s r) q
        ≡ (if same_item p q then some now else begun same lt show_priority s q)
  shrunk-begun now later p s r q =
      ap (find same_item q) (get-starts show_priority now later p r.0 (length r.1.slots) s.metrics)
      ∙ find-cons same_item p q now s.metrics.processing_start_times

  Removed-Sound :
      (now later p : ℕ) (s : Reporting same lt show_priority) (r : Item V P × ItemHeap V P)
      → Sound same lt show_priority s
      → find same r.0.value s.queue.lookup ≡ some p
      → Removed lt s.queue.items p r
      → Sound same lt show_priority (shrunk now later p s r)
  unfolding taken_from
  Removed-Sound now later p s r sound e m = record {
    valid = Removed-Agrees same lt law s.queue.items p r s.queue.lookup sound.valid e m;
    fresh = λ w q found.
        let (other, old) = find-drop_some same law r.0.value w s.queue.lookup q found in
        shrunk-begun now later p s r q ∙ elim (Bool-cases (same_item p q)) [
          | inl here ↦
              absurd
                (ground (arith, held-same s r.0.value w p q sound e old (same_item-eq p q here)))
          | inr apart ↦ rw apart (sound.fresh w q old)
        ];
    bounded = λ q t found. elim (Bool-cases (same_item p q)) [
      | inl here ↦ omega (
        arith,
        m.stored,
        same_item-eq p q here,
        Agrees-bound same lt law s.queue.items s.queue.lookup r.0.value p sound.valid e,
      )
      | inr apart ↦ omega (
        arith,
        m.stored,
        sound.bounded q t (other_time q apart ∙ sym (shrunk-begun now later p s r q) ∙ found),
      )
    ];
  }
    where
      same_item-eq : (a b : ℕ) → same_item a b ≡ true → a ≡ b
      same_item-eq a b h = ground arith

      other_time :
          (q : ℕ)
          → same_item p q ≡ false
          → begun same lt show_priority s q
            ≡ (if same_item p q then some now else begun same lt show_priority s q)
      other_time q h = rw h refl

  get-some :
      (now later p : ℕ) (s : Reporting same lt show_priority) (r : Item V P × ItemHeap V P)
      → (length s.queue.items.slots == 0) ≡ false
      → at s.queue.items.slots 0 ≡ ok p
      → heap_pop lt s.queue.items ≡ ok r
      → (perform_metered same lt (statsd_metrics show_priority) (get_at now later) s
          ≡ ok (some r.0.value, shrunk now later p s r))
        × (perform same lt get_call s.queue ≡ ok (some r.0.value, (shrunk now later p s r).queue))
  unfolding perform_metered metered_get perform get taken_from
  get-some now later p s r full e f = (rw (full, e, f) refl, rw (full, f) refl)

  get-none :
      (now later : ℕ) (s : Reporting same lt show_priority)
      → (length s.queue.items.slots == 0) ≡ true
      → (perform_metered same lt (statsd_metrics show_priority) (get_at now later) s ≡ ok (none, s))
        × (perform same lt get_call s.queue ≡ ok (none, s.queue))
  unfolding perform_metered metered_get perform get
  get-none now later s empty = (rw empty refl, rw empty refl)

  pub get-Reported :
      (now later : ℕ) (s : Reporting same lt show_priority)
      → Sound same lt show_priority s
      → Gives
          (Reported same lt show_priority s (get_at now later))
          (perform_metered same lt (statsd_metrics show_priority) (get_at now later) s)
  get-Reported now later s sound = elim (Bool-cases (length s.queue.items.slots == 0)) [
    | inl empty ↦
        let (metered, plainly) = get-none now later s empty in
        rw metered (gives (record { sound = sound; plainly = plainly }))
    | inr full ↦
        let some_left : 0 < length s.queue.items.slots = ground arith in
        let (r, popped, m) =
          value_of (heap_pop-Removed lt order s.queue.items sound.valid.ordered some_left) in
        let first = ptr s.queue.items.slots 0 in
        let (metered, plainly) =
          get-some now later first s r full (at-ptr s.queue.items.slots 0 some_left) popped in
        let found = sound.valid.listed 0 r.0.value r.0.priority some_left m.item in
        rw metered (
          gives
            (record { sound = Removed-Sound now later first s r sound found m; plainly = plainly }))
  ]
