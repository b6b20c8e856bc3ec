-- ===== src/Queue/Push.antt =====
-- heap.Push: the item is put in, the heap stays one, and there is no panic.
use kube_service_exporter.Base.{
  ℕ, suc, ◌+◌, ◌-◌, ◌<◌, ◌≡◌, refl, ap, ◌∙◌, ◌⊎◌, inl, inr, Bool, false, some, [], ◌∷◌, arith, ◌==◌,
  if◌then◌else◌, Bool-cases, length,
}
use kube_service_exporter.Go.Run.{Gives, Gives-map}
use kube_service_exporter.Queue.Heap.{Item, ItemHeap, push_item, heap_push}
use kube_service_exporter.Queue.Slots.{
  ptr, ptr-append, ptr-append_end, length-append_end, get_elem?-append_end,
}
use kube_service_exporter.Queue.Order.{IsWeakOrder, LooseAbove, parent}
use kube_service_exporter.Queue.Moved.{content, index_at, IsSound}
use kube_service_exporter.Queue.Sift.{below, Sifted, up-Sifted}
use kube_service_exporter.Queue.Container.{IsOrdered, IsHeap-contents}

module _ {V P : Type 0} (lt : P → P → Bool) where
  -- the item is put in behind the pointer `length h.store`
  pub record Pushed (h : ItemHeap V P) (it : Item V P) (h' : ItemHeap V P) : Type 0 where
    pub ordered : IsOrdered lt h'
    pub contents :
        (q : ℕ)
        → content h'.store q
          ≡ (if q == length h.store then some (it.value, it.priority) else content h.store q)
    pub stored : length h'.store ≡ length h.store + 1
    pub size : length h'.slots ≡ length h.slots + 1
    pub from :
        (c : ℕ)
        → c < length h'.slots
        → (ptr h'.slots c ≡ length h.store)
          ⊎ ((d : ℕ) × (d < length h.slots) × (ptr h'.slots c ≡ ptr h.slots d))
    pub at_new : (c : ℕ) × (c < length h'.slots) × (ptr h'.slots c ≡ length h.store)
    pub to :
        (d : ℕ)
        → d < length h.slots
        → (c : ℕ) × (c < length h'.slots) × (ptr h'.slots c ≡ ptr h.slots d)

  module _ (order : IsWeakOrder lt) (h : ItemHeap V P) (it : Item V P) (s : IsOrdered lt h) where
    abbrev pushed : ItemHeap V P
    unfolding push_item
    pushed = push_item lt h it

    abbrev n : ℕ
    n = length h.slots

    size : length pushed.slots ≡ suc n
    unfolding push_item
    size = length-append_end h.slots (length h.store)

    stored : length pushed.store ≡ suc (length h.store)
    unfolding push_item
    stored = length-append_end h.store (record it { index = n })

    contents :
        (q : ℕ)
        → content pushed.store q
          ≡ (if q == length h.store then some (it.value, it.priority) else content h.store q)
    unfolding push_item
    contents q = elim (Bool-cases (q == length h.store)) [
      | inl here ↦ rw (get_elem?-append_end h.store (record it { index = n }) q, here) refl
      | inr other ↦ rw (get_elem?-append_end h.store (record it { index = n }) q, other) refl
    ]

    index-pushed :
        (q : ℕ) → index_at pushed.store q ≡ (if q == length h.store then n else index_at h.store q)
    unfolding push_item
    index-pushed q = elim (Bool-cases (q == length h.store)) [
      | inl here ↦ rw (get_elem?-append_end h.store (record it { index = n }) q, here) refl
      | inr other ↦ rw (get_elem?-append_end h.store (record it { index = n }) q, other) refl
    ]

    ptr-old : (c : ℕ) → c < n → ptr pushed.slots c ≡ ptr h.slots c
    unfolding push_item
    ptr-old c l = ptr-append h.slots (length h.store ∷ []) c l

    ptr-new : ptr pushed.slots n ≡ length h.store
    unfolding push_item
    ptr-new = ptr-append_end h.slots (length h.store)

    pushed-IsSound : IsSound pushed
    pushed-IsSound = record {
      bounded = λ c l. elim (Bool-cases (c == n)) [
        | inl here ↦ ground (arith, stored, ptr-new)
        | inr other ↦ ground (arith, stored, size, ptr-old c, s.sound.bounded c)
      ];
      indexed = λ c l. index-pushed (ptr pushed.slots c) ∙ elim (Bool-cases (c == n)) [
        | inl here ↦ ground (arith, ptr-new)
        | inr other ↦ ground (arith, size, ptr-old c, s.sound.bounded c, s.sound.indexed c)
      ];
    }

    content-old :
        (c : ℕ)
        → c < n
        → content pushed.store (ptr pushed.slots c) ≡ content h.store (ptr h.slots c)
    content-old c l =
        ap (content pushed.store) (ptr-old c l)
        ∙ contents (ptr h.slots c)
        ∙ (let old : (ptr h.slots c == length h.store) ≡ false =
              ground (arith, s.sound.bounded c l) in
            rw old refl)

    pushed-LooseAbove : LooseAbove (below lt (content pushed.store)) (suc n) pushed.slots n
    pushed-LooseAbove = record {
      in_order = λ c p q r.
          let inner : c < n = omega arith in
          rw (content-old c inner, content-old (parent c) (omega arith)) (s.heap c p inner);
      skipped = λ c p q r t. absurd (omega arith);
    }

    Sifted-Pushed :
        (h' : ItemHeap V P)
        → Sifted lt order (content pushed.store) (suc n) pushed h'
        → Pushed h it h'
    Sifted-Pushed h' m = record {
      ordered = record {
        sound = m.moved.sound;
        heap =
            rw (m.moved.size, size)
              (IsHeap-contents lt order pushed.store h'.store (suc n) h'.slots m.moved.contents
                m.heap);
      };
      contents = λ q. m.moved.contents q ∙ contents q;
      stored = omega (arith, m.moved.stored, stored);
      size = omega (arith, m.moved.size, size);
      from = λ c l.
          let (d, q, at) = m.moved.from c (omega (arith, m.moved.size, size)) in
          elim (Bool-cases (d == n)) [
            | inl new ↦ inl (at ∙ ap (ptr pushed.slots) (ground arith) ∙ ptr-new)
            | inr old ↦ inr (d, ground arith, at ∙ ptr-old d (ground arith))
          ];
      at_new =
          let (c, q, at) = m.moved.to n (omega arith) in
          (c, omega (arith, m.moved.size, size), at ∙ ptr-new);
      to = λ d l.
          let (c, q, at) = m.moved.to d (omega arith) in
          (c, omega (arith, m.moved.size, size), at ∙ ptr-old d l);
    }

    pub heap_push-Pushed : Gives (Pushed h it) (heap_push lt h it)
    unfolding heap_push
    heap_push-Pushed =
        let place : length pushed.slots - 1 ≡ n = omega (arith, size) in
        rw place (
          Gives-map
            (up-Sifted lt order (content pushed.store) (suc n) (length pushed.slots) pushed n
              (omega (arith, size)) (omega arith) (omega (arith, size)) pushed-IsSound (λ q. refl)
              pushed-LooseAbove)
            Sifted-Pushed)
