-- ===== src/Queue/Root.antt =====
-- The root of a heap, and the entry that takes the place of a removed one.
use kube_service_exporter.Base.{ℕ, zero, suc, ◌+◌, ◌≤◌, ◌<◌, ◌≡◌, Bool, false, List, arith, length}
use kube_service_exporter.Queue.Slots.{ptr, exchange, ptr-exchange}
use kube_service_exporter.Queue.Order.{parent, IsWeakOrder, IsHeap, LooseAround, irreflexive}

module _ (below : ℕ → ℕ → Bool) (order : IsWeakOrder below) (n : ℕ) (l : List ℕ) where
  -- no entry is below the root
  pub IsHeap-root :
      (fuel c : ℕ) → c < fuel → c < n → IsHeap below n l → below (ptr l c) (ptr l 0) ≡ false
  IsHeap-root zero c f p h = absurd (omega arith)
  IsHeap-root (suc fuel) zero f p h = irreflexive below order n l (ptr l 0)
  IsHeap-root (suc fuel) (suc c) f p h =
      order.trans (ptr l 0) (ptr l (parent (suc c))) (ptr l (suc c))
        (IsHeap-root fuel (parent (suc c)) (omega arith) (omega arith) h)
        (h (suc c) (omega arith) p)

  -- the last entry takes the place of another one
  pub exchange_last-LooseAround :
      (i : ℕ)
      → i ≤ n
      → n < length l
      → IsHeap below (n + 1) l
      → LooseAround below n (exchange l i n) i
  exchange_last-LooseAround i p size h =
      let at = λ (c : ℕ). ptr-exchange l i n c (omega arith) size in
      record {
        in_order = λ c q r s t. ground (arith, at c, at (parent c), h c);
        skipped = λ c q r s t. ground (
          arith,
          at c,
          at (parent i),
          h c,
          h i,
          order.trans (ptr l (parent i)) (ptr l i) (ptr l c),
        );
      }
