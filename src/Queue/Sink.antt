-- ===== src/Queue/Sink.antt =====
-- heap.down moves an entry down to where no child is below it.
use kube_service_exporter.Base.{
  ℕ, zero, suc, ◌+◌, ◌*◌, ◌≤◌, ◌<◌, ◌≡◌, refl, ◌∙◌, ◌⊎◌, inl, inr, Bool, not, Option, arith, ltb,
  leb, length,
}
use kube_service_exporter.Go.Run.{Gives, gives, Gives-bind, Gives-map, Gives-if}
use kube_service_exporter.Queue.Heap.{ItemHeap, child, down}
use kube_service_exporter.Queue.Slots.{ptr}
use kube_service_exporter.Queue.Order.{
  IsWeakOrder, Edge, IsHeap, LooseAbove, LooseAround, IsLeastChild, LooseAbove-IsHeap,
  LooseAround-LooseAbove, settled-LooseAbove, exchange-LooseAround, only-IsLeastChild,
  lesser-IsLeastChild, parent,
}
use kube_service_exporter.Queue.Moved.{IsSound, Moved, Moved-refl, Moved-trans, swap-Moved}
use kube_service_exporter.Queue.Sift.{below, below-IsWeakOrder, Holds, less-below}

module _ {V P : Type 0} (lt : P → P → Bool) (order : IsWeakOrder lt) (c : ℕ → Option (V × P))
    (n : ℕ) where
  abbrev weak : IsWeakOrder (below lt c)
  weak = below-IsWeakOrder lt order c

  child-IsLeastChild :
      (h : ItemHeap V P) (i : ℕ)
      → 2 * i + 1 < n
      → n ≤ length h.slots
      → IsSound h
      → Holds lt c h
      → Gives (IsLeastChild (below lt c) weak n h.slots i) (child lt h (2 * i + 1) n)
  unfolding child
  child-IsLeastChild h i left size s k =
      Gives-if (ltb (2 * i + 1 + 1) n)
        (λ both.
          rw (less-below lt c h (2 * i + 1 + 1) (2 * i + 1) s k (ground arith) (omega arith))
            (gives (lesser-IsLeastChild (below lt c) weak n h.slots i (ground arith))))
        λ only. gives (only-IsLeastChild (below lt c) weak n h.slots i left (ground arith))

  -- an entry is left where it was, with nothing under it below it, or further down in a heap
  pub record Sunk (h : ItemHeap V P) (i : ℕ) (r : ItemHeap V P × ℕ) : Type 0 where
    pub moved : Moved n h r.0
    pub ending :
        ((r.1 ≡ i) × (r.0.slots ≡ h.slots) × LooseAbove (below lt c) n h.slots i)
        ⊎ ((i < r.1) × IsHeap (below lt c) n r.0.slots)

  -- behind a swap with the least child
  further_down :
      (h h' : ItemHeap V P) (i m : ℕ) (r : ItemHeap V P × ℕ)
      → i < m
      → Moved n h h'
      → Edge (below lt c) h'.slots (parent m) m
      → Sunk h' m r
      → Sunk h i r
  further_down h h' i m r over t edge u = record {
    moved = Moved-trans n h h' r.0 t u.moved;
    ending = inr (elim u.ending [
      | inl (at, same, v) ↦
          (rw at over, rw same (LooseAbove-IsHeap (below lt c) weak n h'.slots m v λ pos. edge))
      | inr (further, heap) ↦ (omega (arith, over, further), heap)
    ]);
  }

  pub down-Sunk :
      (fuel : ℕ) (h : ItemHeap V P) (i : ℕ)
      → n < fuel + i
      → 0 < fuel
      → n ≤ length h.slots
      → IsSound h
      → Holds lt c h
      → LooseAround (below lt c) n h.slots i
      → Gives (Sunk h i) (down lt fuel h i n)
  unfolding down
  down-Sunk zero h i f z size s k v = absurd (omega arith)
  down-Sunk (suc fuel) h i f z size s k v =
      Gives-if (leb n (2 * i + 1))
        (λ bottom. gives (record {
          moved = Moved-refl n h s;
          ending = inl (
            refl,
            refl,
            LooseAround-LooseAbove (below lt c) weak n h.slots i v λ d p q r. absurd (ground arith),
          );
        }))
        λ inner. Gives-bind (child-IsLeastChild h i (ground arith) size s k) λ m least.
          let hm : m < n = least.inside in
          let over : i < m = omega (arith, least.child) in
          rw (less-below lt c h m i s k (omega arith) (omega arith)) (
            Gives-if (not (below lt c (ptr h.slots m) (ptr h.slots i)))
              (λ settled. gives (record {
                moved = Moved-refl n h s;
                ending = inl (
                  refl,
                  refl,
                  settled-LooseAbove (below lt c) weak n h.slots i m v least (ground arith),
                );
              }))
              λ smaller.
                let (v', edge) =
                  exchange-LooseAround (below lt c) weak n h.slots i m size v least
                    (ground arith) in
                Gives-bind
                  (swap-Moved lt h i m s (omega arith) (omega arith) n (omega arith) hm size)
                  λ h' (t, e).
                    Gives-map
                      (down-Sunk fuel h' m (omega arith) (omega arith) (omega (arith, t.size))
                        t.sound (λ q. t.contents q ∙ k q) (rw e v'))
                      λ r u. further_down h h' i m r over t (rw e edge) u)
