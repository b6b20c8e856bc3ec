-- ===== src/Queue/Reported/Adding.antt =====
-- Add with its metrics.
use kube_service_exporter.Base.{
  ℕ, ◌≡◌, refl, sym, ap, ◌∙◌, inl, inr, Bool, Option, none, some, ◌∷◌, arith, Bool-cases, length,
  get_elem?, Text,
}
use kube_service_exporter.Go.Run.{value_of, Gives, gives, ok}
use kube_service_exporter.Queue.{find, add, is_known}
use kube_service_exporter.Queue.Heap.{Item, ItemHeap, heap_push}
use kube_service_exporter.Queue.Metrics.{metrics_add, same_item, add-starts}
use kube_service_exporter.Queue.Order.{IsWeakOrder}
use kube_service_exporter.Queue.Moved.{content-some}
use kube_service_exporter.Queue.Push.{Pushed, heap_push-Pushed}
use kube_service_exporter.Queue.Lookup.{IsEquality, find-cons}
use kube_service_exporter.Queue.Valid.{Pushed-Agrees}
use kube_service_exporter.Queue.Spec.{add_call}
use kube_service_exporter.Queue.Runs.{perform}
use kube_service_exporter.Queue.Metered.{
  add_at, statsd_metrics, add_found, metered_add, perform_metered,
}
use kube_service_exporter.Queue.Reported.{Reporting, begun, Sound, Reported}

module _ {V P : Type 0} (same : V → V → Bool) (lt : P → P → Bool) (show_priority : P → Text)
    (law : IsEquality same) (order : IsWeakOrder lt) where
  abbrev new_item : V → P → Item V P
  new_item v x = record { value = v; priority = x; index = 0 }

  -- what Add leaves for a new value
  abbrev grown :
      ℕ
      → V
      → Reporting same lt show_priority
      → ItemHeap V P
      → Item V P
      → Reporting same lt show_priority
  grown now v s items it = record {
    queue = record {
      failures = s.queue.failures;
      items = items;
      lookup = (v, length s.queue.items.store) ∷ s.queue.lookup;
    };
    metrics =
        metrics_add show_priority now (length s.queue.items.store) it (length items.slots)
          s.metrics;
  }

  grown-begun :
      (now : ℕ) (v : V) (s : Reporting same lt show_priority) (items : ItemHeap V P) (it : Item V P)
      (p : ℕ)
      → begun same lt show_priority (grown now v s items it) p ≡ begun same lt show_priority s p
  grown-begun now v s items it p =
      ap (find same_item p) (
        add-starts show_priority now (length s.queue.items.store) it (length items.slots) s.metrics)

  Pushed-Sound :
      (now : ℕ) (v : V) (x : P) (s : Reporting same lt show_priority) (items : ItemHeap V P)
      (it : Item V P)
      → Sound same lt show_priority s
      → find same v s.queue.lookup ≡ none
      → Pushed lt s.queue.items (new_item v x) items
      → Sound same lt show_priority (grown now v s items it)
  Pushed-Sound now v x s items it sound e m = record {
    valid =
        Pushed-Agrees same lt law s.queue.items items s.queue.lookup (new_item v x) sound.valid e m;
    fresh = λ w p found. grown-begun now v s items it p ∙ elim (Bool-cases (same v w)) [
      | inl here ↦
          new p (rw (find-cons same v w (length s.queue.items.store) s.queue.lookup, here) at found)
      | inr other ↦
          sound.fresh w p
            (rw (find-cons same v w (length s.queue.items.store) s.queue.lookup, other) at found)
    ];
    bounded = λ p t found.
        omega (arith, m.stored, sound.bounded p t (sym (grown-begun now v s items it p) ∙ found));
  }
    where
      fits :
          (p : ℕ) (o : Option ℕ)
          → begun same lt show_priority s p ≡ o
          → length s.queue.items.store ≡ p
          → o ≡ none
      fits p none h place = refl
      fits p (some t) h place = absurd (omega (arith, sound.bounded p t h))

      new :
          (p : ℕ)
          → some (length s.queue.items.store) ≡ some p
          → begun same lt show_priority s p ≡ none
      new p h = fits p (begun same lt show_priority s p) refl (some_inj h)
        where
          some_inj : {a b : ℕ} → some a ≡ some b → a ≡ b
          some_inj f = cc

  add-known :
      (now : ℕ) (v : V) (x : P) (s : Reporting same lt show_priority) (p : ℕ)
      → find same v s.queue.lookup ≡ some p
      → (perform_metered same lt (statsd_metrics show_priority) (add_at now v x) s ≡ ok (none, s))
        × (perform same lt (add_call v x) s.queue ≡ ok (none, s.queue))
  unfolding perform_metered metered_add add_found perform add is_known
  add-known now v x s p e = (rw e refl, rw e refl)

  add-new :
      (now : ℕ) (v : V) (x : P) (s : Reporting same lt show_priority) (items : ItemHeap V P)
      (it : Item V P)
      → find same v s.queue.lookup ≡ none
      → heap_push lt s.queue.items (new_item v x) ≡ ok items
      → get_elem? items.store (length s.queue.items.store) ≡ some it
      → (perform_metered same lt (statsd_metrics show_priority) (add_at now v x) s
          ≡ ok (none, grown now v s items it))
        × (perform same lt (add_call v x) s.queue ≡ ok (none, (grown now v s items it).queue))
  unfolding perform_metered metered_add add_found perform add is_known
  add-new now v x s items it e pushed stored = (rw (e, pushed, stored) refl, rw (e, pushed) refl)

  pub add-Reported :
      (now : ℕ) (v : V) (x : P) (s : Reporting same lt show_priority)
      → Sound same lt show_priority s
      → Gives
          (Reported same lt show_priority s (add_at now v x))
          (perform_metered same lt (statsd_metrics show_priority) (add_at now v x) s)
  add-Reported now v x s sound = go (find same v s.queue.lookup) refl
    where
      go :
          (found : Option ℕ)
          → find same v s.queue.lookup ≡ found
          → Gives
              (Reported same lt show_priority s (add_at now v x))
              (perform_metered same lt (statsd_metrics show_priority) (add_at now v x) s)
      go (some p) e =
          let (metered, plainly) = add-known now v x s p e in
          rw metered (gives (record { sound = sound; plainly = plainly }))
      go none e =
          let (items, pushed, m) =
            value_of (heap_push-Pushed lt order s.queue.items (new_item v x) sound.valid.ordered) in
          let (it, stored) =
            content-some items.store (length s.queue.items.store) (omega (arith, m.stored)) in
          let (metered, plainly) = add-new now v x s items it e pushed stored in
          rw metered (
            gives (record { sound = Pushed-Sound now v x s items it sound e m; plainly = plainly }))
