-- ===== src/Queue/Remove.antt =====
-- heap.Pop and heap.Remove: the item is taken out, the rest is a heap, and neither panics.
use kube_service_exporter.Base.{
  ℕ, ◌+◌, ◌-◌, ◌≤◌, ◌<◌, ◌≡◌, ap, ◌∙◌, inl, inr, Bool, Option, arith, ltb, ◌==◌, if◌then◌else◌,
  length,
}
use kube_service_exporter.Go.Run.{Gives, gives, Gives-bind, Gives-map, Gives-if, ok}
use kube_service_exporter.Queue.Heap.{ItemHeap, swap, up, heap_pop, heap_remove}
use kube_service_exporter.Queue.Slots.{ptr, ptr-exchange}
use kube_service_exporter.Queue.Order.{IsWeakOrder, LooseAround, LooseAbove-IsHeap}
use kube_service_exporter.Queue.Root.{exchange_last-LooseAround}
use kube_service_exporter.Queue.Moved.{content, Moved, Moved-refl, Moved-trans, swap-Moved}
use kube_service_exporter.Queue.Sift.{below, below-IsWeakOrder, Sifted, up-Sifted}
use kube_service_exporter.Queue.Sink.{Sunk, down-Sunk}
use kube_service_exporter.Queue.Container.{IsOrdered, Removed, pop_item-Removed, Moved-wider}

module _ {V P : Type 0} (lt : P → P → Bool) (order : IsWeakOrder lt) where
  -- the last item has taken the place `i`
  record Replaced (h : ItemHeap V P) (n i : ℕ) (h' : ItemHeap V P) : Type 0 where
    moved : Moved (n + 1) h h'
    down_from : LooseAround (below lt (content h.store)) n h'.slots i
    last : ptr h'.slots n ≡ ptr h.slots i

  swap-Replaced :
      (h : ItemHeap V P) (n i : ℕ)
      → IsOrdered lt h
      → n + 1 ≡ length h.slots
      → i ≤ n
      → Gives (Replaced h n i) (swap lt h i n)
  swap-Replaced h n i s e p =
      Gives-map
        (swap-Moved lt h i n s.sound (omega (arith, e)) (omega (arith, e)) (n + 1) (omega arith)
          (omega arith) (omega (arith, e)))
        λ h' (m, at). record {
          moved = m;
          down_from = rw at (
              exchange_last-LooseAround (below lt (content h.store))
                (below-IsWeakOrder lt order (content h.store)) n h.slots i p (omega (arith, e))
                (rw e s.heap));
          last = rw at (
              ptr-exchange h.slots i n n (omega (arith, e)) (omega (arith, e))
              ∙ ap (ptr h.slots) (ground arith));
        }

  pub heap_pop-Removed :
      (h : ItemHeap V P)
      → IsOrdered lt h
      → 0 < length h.slots
      → Gives (Removed lt h (ptr h.slots 0)) (heap_pop lt h)
  unfolding heap_pop
  heap_pop-Removed h s full =
      let n = length h.slots - 1 in
      let e : n + 1 ≡ length h.slots = omega (arith, full) in
      let c = content h.store in
      let weak = below-IsWeakOrder lt order c in
      Gives-bind (swap-Replaced h n 0 s e (omega arith)) λ h' r.
        Gives-bind
          (down-Sunk lt order c n (length h.slots) h' 0 (omega arith) (omega arith)
            (omega (arith, r.moved.size, e)) r.moved.sound r.moved.contents r.down_from)
          λ (h'', j) u.
            pop_item-Removed lt order h h'' n (ptr h.slots 0) e
              (Moved-trans (n + 1) h h' h'' r.moved (Moved-wider lt order h' h'' n u.moved))
              (elim u.ending [
                | inl (at, same, v) ↦
                    rw same (
                      LooseAbove-IsHeap (below lt c) weak n h'.slots 0 v
                        λ pos. absurd (omega arith))
                | inr (over, heap) ↦ heap
              ])
              (u.moved.tail n (omega arith) ∙ r.last)

  -- where the entry has not moved down it is moved up
  up-Sunk :
      (c : ℕ → Option (V × P)) (h h' : ItemHeap V P) (fuel n i j : ℕ)
      → i < fuel
      → i < n
      → n ≤ length h.slots
      → ((q : ℕ) → content h.store q ≡ c q)
      → Sunk lt order c n h i (h', j)
      → Gives (Sifted lt order c n h) (if ltb i j then ok h' else up lt fuel h' i)
  up-Sunk c h h' fuel n i j f p size k u =
      Gives-if (ltb i j)
        (λ over. gives (record {
          moved = u.moved;
          heap = elim u.ending [
            | inl (at, same, v) ↦ absurd (ground arith)
            | inr (further, heap) ↦ heap
          ];
        }))
        λ stayed. elim u.ending [
          | inl (at, same, v) ↦
              Gives-map
                (up-Sifted lt order c n fuel h' i f p (omega (arith, size, u.moved.size))
                  u.moved.sound (λ q. u.moved.contents q ∙ k q) (rw same v))
                λ h'' w. record { moved = Moved-trans n h h' h'' u.moved w.moved; heap = w.heap }
          | inr (further, heap) ↦ absurd (ground arith)
        ]

  -- heap.Remove at an index in range returns, on a heap whose items know their places, the item at that
  -- place. What it leaves is again such a heap, and it has all other items and no more. The comparison is a
  -- weak order.
  pub heap_remove-Removed :
      (h : ItemHeap V P) (i : ℕ)
      → IsOrdered lt h
      → i < length h.slots
      → Gives (Removed lt h (ptr h.slots i)) (heap_remove lt h i)
  unfolding heap_remove
  heap_remove-Removed h i s inside =
      let n = length h.slots - 1 in
      let e : n + 1 ≡ length h.slots = omega (arith, inside) in
      let c = content h.store in
      let weak = below-IsWeakOrder lt order c in
      Gives-if (n == i)
        (λ at_end.
          pop_item-Removed lt order h h n (ptr h.slots i) e (Moved-refl (n + 1) h s.sound)
            (λ d p q. s.heap d p (omega (arith, e))) (ap (ptr h.slots) (ground arith)))
        λ inner. Gives-bind (swap-Replaced h n i s e (omega (arith, e))) λ h' r.
          Gives-bind
            (down-Sunk lt order c n (length h.slots) h' i (omega (arith, e)) (omega arith)
              (omega (arith, r.moved.size, e)) r.moved.sound r.moved.contents r.down_from)
            λ (h'', j) u.
              Gives-bind
                (up-Sunk c h' h'' (length h.slots) n i j inside (ground (arith, e))
                  (omega (arith, r.moved.size, e)) r.moved.contents u)
                λ h3 w.
                  pop_item-Removed lt order h h3 n (ptr h.slots i) e
                    (Moved-trans (n + 1) h h' h3 r.moved (Moved-wider lt order h' h3 n w.moved))
                    w.heap (w.moved.tail n (omega arith) ∙ r.last)
