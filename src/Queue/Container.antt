-- ===== src/Queue/Container.antt =====
-- container/heap on the items of the queue: Push, Pop and Remove keep the heap, neither panics.
use kube_service_exporter.Base.{
  ℕ, suc, ◌+◌, ◌-◌, ◌/◌, ◌<◌, ◌≡◌, sym, ap, ◌∙◌, ◌≢◌, inl, inr, Bool, some, List, arith, ltb,
  Bool-cases, length, get_elem?,
}
use kube_service_exporter.Go.Run.{Gives, gives}
use kube_service_exporter.Queue.Heap.{Item, ItemHeap, but_last, item_at, pop_item}
use kube_service_exporter.Queue.Slots.{ptr, at-ptr, length-but_last, ptr-but_last}
use kube_service_exporter.Queue.Order.{IsWeakOrder, IsHeap}
use kube_service_exporter.Queue.Moved.{
  content, content_of, IsSound, IsSound-injective, content-some, Moved,
}
use kube_service_exporter.Queue.Sift.{below}

module _ {V P : Type 0} (lt : P → P → Bool) where
  -- a heap in the order of the priorities
  pub record IsOrdered (h : ItemHeap V P) : Type 0 where
    pub sound : IsSound h
    pub heap : IsHeap (below lt (content h.store)) (length h.slots) h.slots

  -- the item that the pointer `p` leads to is taken out
  pub record Removed (h : ItemHeap V P) (p : ℕ) (r : Item V P × ItemHeap V P) : Type 0 where
    pub ordered : IsOrdered r.1
    pub item : content h.store p ≡ some (r.0.value, r.0.priority)
    pub contents : (q : ℕ) → content r.1.store q ≡ content h.store q
    pub stored : length r.1.store ≡ length h.store
    pub size : length r.1.slots + 1 ≡ length h.slots
    pub from :
        (c : ℕ)
        → c < length r.1.slots
        → (d : ℕ) × (d < length h.slots) × (ptr r.1.slots c ≡ ptr h.slots d) × (ptr h.slots d ≢ p)
    pub to :
        (d : ℕ)
        → d < length h.slots
        → ptr h.slots d ≢ p
        → (c : ℕ) × (c < length r.1.slots) × (ptr r.1.slots c ≡ ptr h.slots d)

  module _ (order : IsWeakOrder lt) where
    -- the order is one of the contents
    pub IsHeap-contents :
        (a b : List (Item V P)) (n : ℕ) (l : List ℕ)
        → ((q : ℕ) → content b q ≡ content a q)
        → IsHeap (below lt (content a)) n l
        → IsHeap (below lt (content b)) n l
    IsHeap-contents a b n l e h = λ c p q. rw (e (ptr l c), e (ptr l ((c - 1) / 2))) (h c p q)

    -- the last place is dropped
    but_last-Removed :
        (h h' : ItemHeap V P) (n p : ℕ) (it : Item V P)
        → n + 1 ≡ length h.slots
        → Moved (n + 1) h h'
        → IsHeap (below lt (content h.store)) n h'.slots
        → ptr h'.slots n ≡ p
        → get_elem? h'.store (ptr h'.slots n) ≡ some it
        → Removed h p (it, record h' { slots = but_last h'.slots })
    but_last-Removed h h' n p it e m heap last found = record {
      ordered = record {
        sound = record {
          bounded =
              λ c l. rw (keep c (inner c l)) (m.sound.bounded c (omega (arith, inner c l, size)));
          indexed =
              λ c l. rw (keep c (inner c l)) (m.sound.indexed c (omega (arith, inner c l, size)));
        };
        heap = λ c q r.
            rw (keep c (inner c r), keep ((c - 1) / 2) (omega (arith, inner c r)))
              (IsHeap-contents h.store h'.store n h'.slots m.contents heap c q (inner c r));
      };
      item = rw last at (sym (m.contents (ptr h'.slots n)) ∙ ap content_of found);
      contents = m.contents;
      stored = m.stored;
      size = omega (arith, short, e);
      from = λ c l.
          let (d, q, at) = m.from c (omega (arith, inner c l)) in
          (
            d,
            omega (arith, e),
            keep c (inner c l) ∙ at,
            λ same. absurd (
                omega (
                  arith,
                  inner c l,
                  IsSound-injective h' c n m.sound (omega (arith, inner c l, size))
                      (omega (arith, size)) (at ∙ same ∙ sym last),
                )),
          );
      to = λ d l other.
          let (c, q, at) = m.to d (omega (arith, e)) in
          let left : c < n = ground (arith, last, at) in
          (c, omega (arith, short), keep c left ∙ at);
    }
      where
        size : length h'.slots ≡ suc n
        size = omega (arith, m.size, e)

        short : length (but_last h'.slots) ≡ n
        short = omega (arith, length-but_last h'.slots, size)

        keep : (c : ℕ) → c < n → ptr (but_last h'.slots) c ≡ ptr h'.slots c
        keep c l = ptr-but_last h'.slots c (omega (arith, size))

        inner : (c : ℕ) → c < length (but_last h'.slots) → c < n
        inner c l = omega (arith, short)

    pub pop_item-Removed :
        (h h' : ItemHeap V P) (n p : ℕ)
        → n + 1 ≡ length h.slots
        → Moved (n + 1) h h'
        → IsHeap (below lt (content h.store)) n h'.slots
        → ptr h'.slots n ≡ p
        → Gives (Removed h p) (pop_item lt h')
    unfolding pop_item item_at
    pop_item-Removed h h' n p e m heap last =
        let size : length h'.slots ≡ suc n = omega (arith, m.size, e) in
        let place : length h'.slots - 1 ≡ n = omega (arith, size) in
        let (it, found) =
          content-some h'.store (ptr h'.slots n) (m.sound.bounded n (omega (arith, size))) in
        rw (place, at-ptr h'.slots n (omega (arith, size)))
          (rw found (gives (but_last-Removed h h' n p it e m heap last found)))

    -- what has moved among the first entries has moved
    pub Moved-wider : (h h' : ItemHeap V P) (n : ℕ) → Moved n h h' → Moved (n + 1) h h'
    Moved-wider h h' n m = record {
      sound = m.sound;
      contents = m.contents;
      stored = m.stored;
      size = m.size;
      tail = λ c l. m.tail c (omega arith);
      from = λ c l. elim (Bool-cases (ltb c n)) [
        | inl inner ↦ let (d, q, at) = m.from c (ground arith) in (d, omega arith, at)
        | inr last ↦ (c, l, m.tail c (ground arith))
      ];
      to = λ c l. elim (Bool-cases (ltb c n)) [
        | inl inner ↦ let (d, q, at) = m.to c (ground arith) in (d, omega arith, at)
        | inr last ↦ (c, l, m.tail c (ground arith))
      ];
    }
