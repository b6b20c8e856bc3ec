-- ===== src/Queue/Valid.antt =====
-- The queue's lookup table and its heap agree, and Add, Get and Forget keep it so.
use kube_service_exporter.Base.{
  ℕ, ◌<◌, ◌≡◌, refl, sym, ap, ◌∙◌, ◌≢◌, inl, inr, Bool, true, false, none, some, List, ◌∷◌, arith,
  ◌==◌, Bool-cases, length,
}
use kube_service_exporter.Queue.{PriorityQueue, find, drop_key}
use kube_service_exporter.Queue.Heap.{Item, ItemHeap}
use kube_service_exporter.Queue.Slots.{ptr}
use kube_service_exporter.Queue.Moved.{content}
use kube_service_exporter.Queue.Container.{IsOrdered, Removed}
use kube_service_exporter.Queue.Push.{Pushed}
use kube_service_exporter.Queue.Lookup.{IsEquality, find-drop_key, find-drop_other, find-cons}

module _ {V P : Type 0} (same : V → V → Bool) (lt : P → P → Bool) where
  -- some place of the heap holds the pointer `p`, and its item has the value `v`
  abbrev pub Holding : ItemHeap V P → V → ℕ → Type 0
  Holding h v p =
      ((c : ℕ) × (c < length h.slots) × (ptr h.slots c ≡ p))
      × ((x : P) × (content h.store p ≡ some (v, x)))

  -- The heap is one, each of its items is found under its value, and what is found is in the heap
  pub record Agrees (h : ItemHeap V P) (table : List (V × ℕ)) : Type 0 where
    pub ordered : IsOrdered lt h
    pub listed :
        (c : ℕ) (v : V) (x : P)
        → c < length h.slots
        → content h.store (ptr h.slots c) ≡ some (v, x)
        → find same v table ≡ some (ptr h.slots c)
    pub held : (v : V) (p : ℕ) → find same v table ≡ some p → Holding h v p

  abbrev pub IsValid : PriorityQueue V P → Type 0
  IsValid q = Agrees q.items q.lookup

  module _ (law : IsEquality same) where
    -- what is found is in the store
    pub Agrees-bound :
        (h : ItemHeap V P) (table : List (V × ℕ)) (v : V) (p : ℕ)
        → Agrees h table
        → find same v table ≡ some p
        → p < length h.store
    Agrees-bound h table v p s found =
        let ((c, inside, at), there) = s.held v p found in
        omega (arith, at, s.ordered.sound.bounded c inside)

    pub Pushed-content_old :
        (h h' : ItemHeap V P) (it : Item V P) (p : ℕ)
        → Pushed lt h it h'
        → p < length h.store
        → content h'.store p ≡ content h.store p
    Pushed-content_old h h' it p m l =
        let old : (p == length h.store) ≡ false = ground arith in rw old at (m.contents p)

    pub Pushed-content_new :
        (h h' : ItemHeap V P) (it : Item V P)
        → Pushed lt h it h'
        → content h'.store (length h.store) ≡ some (it.value, it.priority)
    Pushed-content_new h h' it m =
        let new : (length h.store == length h.store) ≡ true = ground arith in
        rw new at (m.contents (length h.store))

    pub value_inj : {a b : V × P} → some a ≡ some b → a.0 ≡ b.0
    value_inj e = cc

    some_inj : {a b : ℕ} → some a ≡ some b → a ≡ b
    some_inj e = cc

    pub true-false : true ≡ false → ⊥
    true-false e = cc

    pub none-some : {p : ℕ} → none ≡ some p → ⊥
    none-some e = cc

    -- a key that is missing is none of those that are found
    apart :
        (v w : V) (table : List (V × ℕ)) (p : ℕ)
        → find same v table ≡ none
        → find same w table ≡ some p
        → same v w ≡ false
    apart v w table p missing found = elim (Bool-cases (same v w)) [
      | inl here ↦
          absurd
            (none-some (sym missing ∙ ap (λ k. find same k table) (law.sound v w here) ∙ found))
      | inr other ↦ other
    ]

    pub Pushed-Agrees :
        (h h' : ItemHeap V P) (table : List (V × ℕ)) (it : Item V P)
        → Agrees h table
        → find same it.value table ≡ none
        → Pushed lt h it h'
        → Agrees h' ((it.value, length h.store) ∷ table)
    Pushed-Agrees h h' table it s unknown m = record {
      ordered = m.ordered;
      listed = λ c v x inside at.
          find-cons same it.value v (length h.store) table ∙ elim (m.from c inside) [
            | inl new ↦
                let is_it : it.value ≡ v =
                  value_inj (sym (Pushed-content_new h h' it m) ∙ (rw new at at)) in
                let here : same it.value v ≡ true = rw (sym is_it) (law.reflexive it.value) in
                rw (here, new) refl
            | inr (d, q, old) ↦
                let there : content h.store (ptr h.slots d) ≡ some (v, x) =
                  sym (Pushed-content_old h h' it (ptr h.slots d) m (s.ordered.sound.bounded d q))
                  ∙ (rw old at at) in
                let found = s.listed d v x q there in
                rw (apart it.value v table (ptr h.slots d) unknown found, old) found
          ];
      held = λ v p found. elim (Bool-cases (same it.value v)) [
        | inl here ↦
            let place : length h.store ≡ p =
              some_inj (rw (find-cons same it.value v (length h.store) table, here) at found) in
            let (c, inside, at) = m.at_new in
            (
              (c, inside, at ∙ place),
              (
                it.priority,
                rw (sym place, sym (law.sound it.value v here)) (Pushed-content_new h h' it m),
              ),
            )
        | inr other ↦
            let old : find same v table ≡ some p =
              rw (find-cons same it.value v (length h.store) table, other) at found in
            let ((d, q, at), (x, there)) = s.held v p old in
            let (c, inside, at') = m.to d q in
            (
              (c, inside, at' ∙ at),
              (x, Pushed-content_old h h' it p m (Agrees-bound h table v p s old) ∙ there),
            )
      ];
    }

    pub Removed-Agrees :
        (h : ItemHeap V P) (p : ℕ) (r : Item V P × ItemHeap V P) (table : List (V × ℕ))
        → Agrees h table
        → find same r.0.value table ≡ some p
        → Removed lt h p r
        → Agrees r.1 (drop_key same r.0.value table)
    Removed-Agrees h p r table s known m = record {
      ordered = m.ordered;
      listed = λ c v x inside at.
          let (d, q, place, elsewhere) = m.from c inside in
          let found = s.listed d v x q (rw place at (sym (m.contents (ptr r.1.slots c)) ∙ at)) in
          elim (Bool-cases (same r.0.value v)) [
            | inl here ↦ absurd (
                elsewhere (
                  some_inj (
                    sym found
                    ∙ ap (λ k. find same k table) (sym (law.sound r.0.value v here))
                    ∙ known)))
            | inr other ↦ rw (find-drop_other same r.0.value v table law other, place) found
          ];
      held = λ v q found. elim (Bool-cases (same r.0.value v)) [
        | inl here ↦ absurd (
            none-some (
              sym (find-drop_key same r.0.value table)
              ∙ ap (λ k. find same k (drop_key same r.0.value table)) (law.sound r.0.value v here)
              ∙ found))
        | inr other ↦
            let left : find same v table ≡ some q =
              sym (find-drop_other same r.0.value v table law other) ∙ found in
            let ((d, inside, at), (x, there)) = s.held v q left in
            let elsewhere : ptr h.slots d ≢ p = λ taken.
              let is_v : r.0.value ≡ v =
                value_inj (sym m.item ∙ ap (content h.store) (sym taken ∙ at) ∙ there) in
              true-false (sym (law.reflexive r.0.value) ∙ ap (same r.0.value) is_v ∙ other) in
            let (c, inside', at') = m.to d inside elsewhere in
            ((c, inside', at' ∙ at), (x, m.contents q ∙ there))
      ];
    }
