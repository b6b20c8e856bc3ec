-- ===== src/Queue/Sift.antt =====
-- heap.up and heap.down restore the order of the heap.
use kube_service_exporter.Base.{
  ℕ, zero, suc, ◌≤◌, ◌<◌, ◌≡◌, refl, sym, ◌∙◌, Bool, true, false, not, Option, none, some, arith,
  ◌==◌, length,
}
use kube_service_exporter.Go.Run.{Gives, gives, Gives-bind, Gives-map, Gives-if, ok}
use kube_service_exporter.Queue.Heap.{ItemHeap, item_at, less, up}
use kube_service_exporter.Queue.Slots.{ptr, at-ptr}
use kube_service_exporter.Queue.Order.{
  parent, IsWeakOrder, IsHeap, LooseAbove, LooseAbove-IsHeap, exchange-LooseAbove,
}
use kube_service_exporter.Queue.Moved.{
  content, IsSound, content-some, Moved, Moved-refl, Moved-trans, swap-Moved,
}

module _ {V P : Type 0} (lt : P → P → Bool) where
  -- the comparison of what two pointers lead to; a pointer that leads nowhere comes first
  abbrev pub comes_before : Option (V × P) → Option (V × P) → Bool
  comes_before none none = false
  comes_before none (some b) = true
  comes_before (some a) none = false
  comes_before (some a) (some b) = lt a.1 b.1

  abbrev pub below : (ℕ → Option (V × P)) → ℕ → ℕ → Bool
  below c p q = comes_before (c p) (c q)

  comes_before_asym :
      IsWeakOrder lt → (a b : Option (V × P)) → comes_before a b ≡ true → comes_before b a ≡ false
  comes_before_asym order none none h = refl
  comes_before_asym order none (some b) h = refl
  comes_before_asym order (some a) none h = cc
  comes_before_asym order (some a) (some b) h = order.asym a.1 b.1 h

  comes_before_trans :
      IsWeakOrder lt
      → (a b c : Option (V × P)) → comes_before b a ≡ false
      → comes_before c b ≡ false
      → comes_before c a ≡ false
  comes_before_trans order none b none h k = refl
  comes_before_trans order none b (some c) h k = refl
  comes_before_trans order (some a) none c h k = cc
  comes_before_trans order (some a) (some b) none h k = cc
  comes_before_trans order (some a) (some b) (some c) h k = order.trans a.1 b.1 c.1 h k

  pub below-IsWeakOrder : IsWeakOrder lt → (c : ℕ → Option (V × P)) → IsWeakOrder (below c)
  below-IsWeakOrder order c = record {
    asym = λ p q. comes_before_asym order (c p) (c q);
    trans = λ p q r. comes_before_trans order (c p) (c q) (c r);
  }

  -- the items lead to the contents `c`
  abbrev pub Holds : (ℕ → Option (V × P)) → ItemHeap V P → Type 0
  Holds c h = (p : ℕ) → content h.store p ≡ c p

  pub less-below :
      (c : ℕ → Option (V × P)) (h : ItemHeap V P) (i j : ℕ)
      → IsSound h
      → Holds c h
      → i < length h.slots
      → j < length h.slots
      → less lt h i j ≡ ok (below c (ptr h.slots i) (ptr h.slots j))
  unfolding less item_at
  less-below c h i j s k hi hj =
      let (a, p) = content-some h.store (ptr h.slots i) (s.bounded i hi) in
      let (b, q) = content-some h.store (ptr h.slots j) (s.bounded j hj) in
      rw (at-ptr h.slots i hi, at-ptr h.slots j hj)
        (rw (p, q) (rw (sym (k (ptr h.slots i)), sym (k (ptr h.slots j)), p, q) refl))

  module _ (order : IsWeakOrder lt) (c : ℕ → Option (V × P)) (n : ℕ) where
    -- the first `n` entries, moved about, are a heap
    pub record Sifted (h h' : ItemHeap V P) : Type 0 where
      pub moved : Moved n h h'
      pub heap : IsHeap (below c) n h'.slots

    pub up-Sifted :
        (fuel : ℕ) (h : ItemHeap V P) (j : ℕ)
        → j < fuel
        → j < n
        → n ≤ length h.slots
        → IsSound h
        → Holds c h
        → LooseAbove (below c) n h.slots j
        → Gives (Sifted h) (up lt fuel h j)
    unfolding up
    up-Sifted zero h j f p size s k v = absurd (omega arith)
    up-Sifted (suc fuel) h j f p size s k v =
        Gives-if (parent j == j)
          (λ root. gives (record {
            moved = Moved-refl n h s;
            heap =
                LooseAbove-IsHeap (below c) (below-IsWeakOrder order c) n h.slots j v
                  λ pos. absurd (ground arith);
          }))
          λ inner. rw (less-below c h j (parent j) s k (omega arith) (omega arith)) (
            Gives-if (not (below c (ptr h.slots j) (ptr h.slots (parent j))))
              (λ settled. gives (record {
                moved = Moved-refl n h s;
                heap =
                    LooseAbove-IsHeap (below c) (below-IsWeakOrder order c) n h.slots j v
                      λ pos. ground arith;
              }))
              λ smaller.
                Gives-bind
                  (swap-Moved lt h (parent j) j s (omega arith) (omega arith) n (omega arith) p
                    size)
                  λ h' (m, e).
                    Gives-map
                      (up-Sifted fuel h' (parent j) (ground arith) (omega arith)
                        (omega (arith, m.size)) m.sound (λ q. m.contents q ∙ k q)
                        (rw e (
                          exchange-LooseAbove (below c) (below-IsWeakOrder order c) n h.slots
                            (parent j) j refl (ground arith) p size v (ground arith))))
                      λ h'' t. record { moved = Moved-trans n h h' h'' m t.moved; heap = t.heap })
