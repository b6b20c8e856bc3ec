-- ===== src/Queue/Order.antt =====
-- The order of the heap, on the slice of pointers and a comparison of pointers.
use kube_service_exporter.Base.{
  ℕ, ◌+◌, ◌-◌, ◌*◌, ◌/◌, ◌≤◌, ◌<◌, ◌≡◌, refl, ◌≢◌, ◌⊎◌, inl, inr, Bool, true, false, List, arith,
  ltb, ◌==◌, if◌then◌else◌, Bool-cases, length,
}
use kube_service_exporter.Queue.Slots.{ptr, exchange, ptr-exchange}

abbrev pub parent : ℕ → ℕ
parent c = (c - 1) / 2

-- A comparison that orders everything, up to ties.
pub record IsWeakOrder {A : Type 0} (lt : A → A → Bool) : Type 0 where
  pub asym : (a b : A) → lt a b ≡ true → lt b a ≡ false
  pub trans : (a b c : A) → lt b a ≡ false → lt c b ≡ false → lt c a ≡ false

pub ltb-IsWeakOrder : IsWeakOrder ltb
ltb-IsWeakOrder = record { asym = λ a b h. ground arith; trans = λ a b c h k. ground arith }

module _ (below : ℕ → ℕ → Bool) where
  -- the entry at `c` is not below the one at `p`
  abbrev pub Edge : List ℕ → ℕ → ℕ → Type 0
  Edge l p c = below (ptr l c) (ptr l p) ≡ false

  -- the first `n` entries are a heap
  abbrev pub IsHeap : ℕ → List ℕ → Type 0
  IsHeap n l = (c : ℕ) → 0 < c → c < n → Edge l (parent c) c

  -- the entries under `i` are not below the one above `i`
  abbrev pub IsSkippable : ℕ → List ℕ → ℕ → Type 0
  IsSkippable n l i = (c : ℕ) → 0 < c → c < n → parent c ≡ i → 0 < i → Edge l (parent i) c

  -- only the edge above `i` may be out of order
  pub record LooseAbove (n : ℕ) (l : List ℕ) (i : ℕ) : Type 0 where
    pub in_order : (c : ℕ) → 0 < c → c < n → c ≢ i → Edge l (parent c) c
    pub skipped : IsSkippable n l i

  -- only the in_order at `i` may be out of order
  pub record LooseAround (n : ℕ) (l : List ℕ) (i : ℕ) : Type 0 where
    pub in_order : (c : ℕ) → 0 < c → c < n → c ≢ i → parent c ≢ i → Edge l (parent c) c
    pub skipped : IsSkippable n l i

  module _ (order : IsWeakOrder below) (n : ℕ) (l : List ℕ) where
    pub LooseAbove-IsHeap : (i : ℕ) → LooseAbove n l i → (0 < i → Edge l (parent i) i) → IsHeap n l
    LooseAbove-IsHeap i v e c p q = elim (Bool-cases (c == i)) [
      | inl here ↦ let same : c ≡ i = ground arith in rw same (e (ground arith))
      | inr other ↦ v.in_order c p q (ground arith)
    ]

    -- an entry that is below its parent changes places with it
    pub exchange-LooseAbove :
        (i j : ℕ)
        → i ≡ parent j
        → i < j
        → j < n
        → n ≤ length l
        → LooseAbove n l j
        → below (ptr l j) (ptr l i) ≡ true
        → LooseAbove n (exchange l i j) i
    exchange-LooseAbove i j e lt hj size v smaller =
        let at = λ (c : ℕ). ptr-exchange l i j c (omega arith) (omega arith) in
        record {
          in_order = λ c p q r. ground (
            arith,
            at c,
            at (parent c),
            v.in_order c,
            v.skipped c,
            order.asym (ptr l j) (ptr l i),
            order.trans (ptr l j) (ptr l i) (ptr l c),
          );
          skipped = λ c p q r s. ground (
            arith,
            at c,
            at (parent i),
            v.in_order c,
            v.in_order i,
            order.trans (ptr l (parent i)) (ptr l i) (ptr l c),
          );
        }

    -- `m` is a child of `i`, and no child is below it
    pub record IsLeastChild (i m : ℕ) : Type 0 where
      pub inside : m < n
      pub child : (m ≡ 2 * i + 1) ⊎ (m ≡ 2 * i + 2)
      pub least : (c : ℕ) → 0 < c → c < n → parent c ≡ i → Edge l m c

    pub LooseAround-LooseAbove :
        (i : ℕ)
        → LooseAround n l i
        → ((c : ℕ) → 0 < c → c < n → parent c ≡ i → Edge l i c)
        → LooseAbove n l i
    LooseAround-LooseAbove i v under = record {
      in_order = λ c p q r. elim (Bool-cases (parent c == i)) [
        | inl here ↦ let same : parent c ≡ i = ground arith in rw same (under c p q same)
        | inr other ↦ v.in_order c p q r (ground arith)
      ];
      skipped = v.skipped;
    }

    -- where the least child is not below its parent, only the edge above the parent is left
    pub settled-LooseAbove :
        (i m : ℕ)
        → LooseAround n l i
        → IsLeastChild i m
        → below (ptr l m) (ptr l i) ≡ false
        → LooseAbove n l i
    settled-LooseAbove i m v s larger =
        LooseAround-LooseAbove i v
          λ c p q r. order.trans (ptr l i) (ptr l m) (ptr l c) larger (s.least c p q r)

    -- the least child is below its parent and changes places with it
    pub exchange-LooseAround :
        (i m : ℕ)
        → n ≤ length l
        → LooseAround n l i
        → IsLeastChild i m
        → below (ptr l m) (ptr l i) ≡ true
        → LooseAround n (exchange l i m) m × Edge (exchange l i m) (parent m) m
    exchange-LooseAround i m size v s smaller =
        let hm : m < n = s.inside in
        let over : parent m ≡ i = omega (arith, s.child) in
        let lt : i < m = omega (arith, s.child) in
        let at = λ (c : ℕ). ptr-exchange l i m c (omega arith) (omega arith) in
        (
          record {
            in_order = λ c p q r t.
                ground (arith, at c, at (parent c), v.in_order c, v.skipped m, s.least c);
            skipped = λ c p q r t. ground (arith, at c, at (parent m), v.in_order c);
          },
          ground (arith, at m, at (parent m), order.asym (ptr l m) (ptr l i)),
        )

    pub irreflexive : (a : ℕ) → below a a ≡ false
    irreflexive a = elim (Bool-cases (below a a)) [ inl e ↦ order.asym a a e | inr e ↦ e ]

    -- where there is one child only, it is the least one
    pub only-IsLeastChild : (i : ℕ) → 2 * i + 1 < n → n ≤ 2 * i + 1 + 1 → IsLeastChild i (2 * i + 1)
    only-IsLeastChild i left last = record {
      inside = left;
      child = inl refl;
      least = λ c p q r.
          let same : c ≡ 2 * i + 1 = ground arith in rw same (irreflexive (ptr l (2 * i + 1)));
    }

    pub lesser-IsLeastChild :
        (i : ℕ)
        → 2 * i + 1 + 1 < n
        → IsLeastChild i
            (if below (ptr l (2 * i + 1 + 1)) (ptr l (2 * i + 1)) then 2 * i + 1 + 1 else 2 * i + 1)
    lesser-IsLeastChild i both =
        elim (Bool-cases (below (ptr l (2 * i + 1 + 1)) (ptr l (2 * i + 1)))) [
          | inl right ↦ rw right (record {
            inside = both;
            child = inr (omega arith);
            least = λ c p q r. elim (of_two c p r) [
              | inl first ↦ rw first (order.asym (ptr l (2 * i + 1 + 1)) (ptr l (2 * i + 1)) right)
              | inr second ↦ rw second (irreflexive (ptr l (2 * i + 1 + 1)))
            ];
          })
          | inr left ↦ rw left (record {
            inside = omega arith;
            child = inl refl;
            least = λ c p q r. elim (of_two c p r) [
              | inl first ↦ rw first (irreflexive (ptr l (2 * i + 1)))
              | inr second ↦ rw second left
            ];
          })
        ]
      where
        of_two : (c : ℕ) → 0 < c → parent c ≡ i → (c ≡ 2 * i + 1) ⊎ (c ≡ 2 * i + 1 + 1)
        of_two c p r = elim (Bool-cases (c == 2 * i + 1)) [
          | inl first ↦ inl (ground arith)
          | inr second ↦ inr (ground arith)
        ]
