-- ===== src/Queue/Reported/Forgetting.antt =====
-- Forget with its metrics: it never reports the time that an item was at work.
use kube_service_exporter.Base.{
  ℕ, ◌≡◌, refl, sym, ◌∙◌, Bool, Option, none, some, arith, get_elem?, Text,
}
use kube_service_exporter.Go.Run.{value_of, Gives, gives, ok}
use kube_service_exporter.Queue.{find, drop_key, forget}
use kube_service_exporter.Queue.Heap.{Item, ItemHeap, heap_remove, at}
use kube_service_exporter.Queue.Metrics.{forget-missing}
use kube_service_exporter.Queue.Order.{IsWeakOrder}
use kube_service_exporter.Queue.Moved.{content-some}
use kube_service_exporter.Queue.Container.{Removed}
use kube_service_exporter.Queue.Remove.{heap_remove-Removed}
use kube_service_exporter.Queue.Lookup.{IsEquality}
use kube_service_exporter.Queue.Valid.{Removed-Agrees, value_inj}
use kube_service_exporter.Queue.Metered.{statsd_metrics, forget_found, metered_forget}
use kube_service_exporter.Queue.Reported.{Reporting, begun, Sound, find-drop_some}

module _ {V P : Type 0} (same : V → V → Bool) (lt : P → P → Bool) (show_priority : P → Text)
    (law : IsEquality same) (order : IsWeakOrder lt) where
  -- what Forget leaves: its metrics are told nothing that they report
  abbrev without_item :
      V → Reporting same lt show_priority → ItemHeap V P → Reporting same lt show_priority
  without_item v s items = record {
    queue = record {
      failures = drop_key same v s.queue.failures;
      items = items;
      lookup = drop_key same v s.queue.lookup;
    };
    metrics = s.metrics;
  }

  forget-missing_value :
      (now : ℕ) (v : V) (s : Reporting same lt show_priority)
      → find same v s.queue.lookup ≡ none
      → (metered_forget same lt (statsd_metrics show_priority) now v s ≡ ok s)
        × (forget same lt v s.queue ≡ ok s.queue)
  unfolding metered_forget forget_found forget
  forget-missing_value now v s e = (rw e refl, rw (e, forget) refl)

  forget-waiting :
      (now : ℕ) (v : V) (s : Reporting same lt show_priority) (p : ℕ) (it : Item V P)
      (r : Item V P × ItemHeap V P)
      → find same v s.queue.lookup ≡ some p
      → begun same lt show_priority s p ≡ none
      → get_elem? s.queue.items.store p ≡ some it
      → heap_remove lt s.queue.items it.index ≡ ok r
      → (metered_forget same lt (statsd_metrics show_priority) now v s ≡ ok (without_item v s r.1))
        × (forget same lt v s.queue ≡ ok (without_item v s r.1).queue)
  unfolding metered_forget forget_found forget
  forget-waiting now v s p it r e idle stored removed = (
    rw (e, stored, removed, forget-missing show_priority now p it s.metrics idle) refl,
    rw (e, forget, stored, removed) refl,
  )

  without_item-Sound :
      (v : V) (s : Reporting same lt show_priority) (p : ℕ) (r : Item V P × ItemHeap V P)
      → Sound same lt show_priority s
      → find same v s.queue.lookup ≡ some p
      → Removed lt s.queue.items p r
      → Sound same lt show_priority (without_item v s r.1)
  without_item-Sound v s p r sound e m = record {
    valid =
        rw is_v at
          (Removed-Agrees same lt law s.queue.items p r s.queue.lookup sound.valid (rw is_v e) m);
    fresh = λ w q found. sound.fresh w q (find-drop_some same law v w s.queue.lookup q found).1;
    bounded = λ q t found. omega (arith, m.stored, sound.bounded q t found);
  }
    where
      is_v : r.0.value ≡ v
      is_v = value_inj same lt law (sym m.item ∙ (sound.valid.held v p e).1.1)

  -- Forget returns, and leaves the metrics as they were
  pub record Forgotten (s : Reporting same lt show_priority) (v : V)
      (s' : Reporting same lt show_priority) : Type 0 where
    pub sound : Sound same lt show_priority s'
    pub plainly : forget same lt v s.queue ≡ ok s'.queue
    pub silent : s'.metrics ≡ s.metrics

  pub forget-Forgotten :
      (now : ℕ) (v : V) (s : Reporting same lt show_priority)
      → Sound same lt show_priority s
      → Gives (Forgotten s v) (metered_forget same lt (statsd_metrics show_priority) now v s)
  forget-Forgotten now v s sound = go (find same v s.queue.lookup) refl
    where
      go :
          (found : Option ℕ)
          → find same v s.queue.lookup ≡ found
          → Gives (Forgotten s v) (metered_forget same lt (statsd_metrics show_priority) now v s)
      go none e =
          let (metered, plainly) = forget-missing_value now v s e in
          rw metered (gives (record { sound = sound; plainly = plainly; silent = refl }))
      go (some p) e =
          let ((c, inside, at), there) = sound.valid.held v p e in
          let (it, stored) =
            content-some s.queue.items.store p
              (omega (arith, at, sound.valid.ordered.sound.bounded c inside)) in
          let place : it.index ≡ c =
            rw (at, stored) at (sound.valid.ordered.sound.indexed c inside) in
          let (r, removed, m) =
            value_of (heap_remove-Removed lt order s.queue.items c sound.valid.ordered inside) in
          let (metered, plainly) =
            forget-waiting now v s p it r e (sound.fresh v p e) stored (rw place removed) in
          rw metered (
            gives (record {
              sound = without_item-Sound v s p r sound e (rw at at m);
              plainly = plainly;
              silent = refl;
            }))
