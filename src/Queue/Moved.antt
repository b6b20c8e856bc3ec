-- ===== src/Queue/Moved.antt =====
-- The heap's items behind their pointers: each knows its place, and moving items about changes
-- nothing else of them.
use kube_service_exporter.Base.{
  ℕ, zero, suc, ◌≤◌, ◌<◌, ◌≡◌, refl, sym, ap, ◌∙◌, inl, inr, Bool, Option, none, some, List, [],
  ◌∷◌, arith, ◌==◌, if◌then◌else◌, Bool-cases, length, get_elem?,
}
use kube_service_exporter.Go.Run.{Gives, gives, Gives-bind, Gives-map}
use kube_service_exporter.Queue.Heap.{Item, ItemHeap, number, swap}
use kube_service_exporter.Queue.Slots.{
  ptr, put, exchange, turn, at-ptr, set-put, length-put, get_elem?-put, length-exchange,
  ptr-exchange,
}

module _ {V P : Type 0} where
  abbrev pub content_of : Option (Item V P) → Option (V × P)
  content_of none = none
  content_of (some it) = some (it.value, it.priority)

  -- what a pointer leads to, but for the index
  abbrev pub content : List (Item V P) → ℕ → Option (V × P)
  content store p = content_of (get_elem? store p)

  abbrev pub index_of : Option (Item V P) → ℕ
  index_of none = 0
  index_of (some it) = it.index

  abbrev pub index_at : List (Item V P) → ℕ → ℕ
  index_at store p = index_of (get_elem? store p)

  -- every pointer leads to an item that has the pointer's place as its index
  pub record IsSound (h : ItemHeap V P) : Type 0 where
    pub bounded : (i : ℕ) → i < length h.slots → ptr h.slots i < length h.store
    pub indexed : (i : ℕ) → i < length h.slots → index_at h.store (ptr h.slots i) ≡ i

  -- no two places have the same pointer
  pub IsSound-injective :
      (h : ItemHeap V P) (i j : ℕ)
      → IsSound h
      → i < length h.slots
      → j < length h.slots
      → ptr h.slots i ≡ ptr h.slots j
      → i ≡ j
  IsSound-injective h i j s hi hj e =
      sym (s.indexed i hi) ∙ ap (index_at h.store) e ∙ s.indexed j hj

  pub content-some :
      (store : List (Item V P)) (p : ℕ)
      → p < length store
      → (it : Item V P) × (get_elem? store p ≡ some it)
  content-some [] p h = absurd (omega arith)
  content-some (it ∷ store) zero h = (it, refl)
  content-some (it ∷ store) (suc p) h = content-some store p (omega arith)

  -- the same items behind the same pointers, of which the first `n` may have changed places
  pub record Moved (n : ℕ) (h h' : ItemHeap V P) : Type 0 where
    pub sound : IsSound h'
    pub contents : (p : ℕ) → content h'.store p ≡ content h.store p
    pub stored : length h'.store ≡ length h.store
    pub size : length h'.slots ≡ length h.slots
    pub tail : (c : ℕ) → n ≤ c → ptr h'.slots c ≡ ptr h.slots c
    pub from : (c : ℕ) → c < n → (d : ℕ) × (d < n) × (ptr h'.slots c ≡ ptr h.slots d)
    pub to : (c : ℕ) → c < n → (d : ℕ) × (d < n) × (ptr h'.slots d ≡ ptr h.slots c)

  pub Moved-refl : (n : ℕ) (h : ItemHeap V P) → IsSound h → Moved n h h
  Moved-refl n h s = record {
    sound = s;
    contents = λ p. refl;
    stored = refl;
    size = refl;
    tail = λ c l. refl;
    from = λ c l. (c, l, refl);
    to = λ c l. (c, l, refl);
  }

  pub Moved-trans :
      (n : ℕ) (h h' h'' : ItemHeap V P) → Moved n h h' → Moved n h' h'' → Moved n h h''
  Moved-trans n h h' h'' a b = record {
    sound = b.sound;
    contents = λ p. b.contents p ∙ a.contents p;
    stored = b.stored ∙ a.stored;
    size = b.size ∙ a.size;
    tail = λ c l. b.tail c l ∙ a.tail c l;
    from =
        λ c l. let (d, l', e) = b.from c l in let (d', l'', e') = a.from d l' in (d', l'', e ∙ e');
    to = λ c l. let (d, l', e) = a.to c l in let (d', l'', e') = b.to d l' in (d', l'', e' ∙ e);
  }

  content-put :
      (store : List (Item V P)) (p q k : ℕ) (it : Item V P)
      → get_elem? store p ≡ some it
      → p < length store
      → content (put store p (record it { index = k })) q ≡ content store q
  content-put store p q k it e h = elim (Bool-cases (p == q)) [
    | inl here ↦
        let same : p ≡ q = ground arith in
        rw (get_elem?-put store p q (record it { index = k }) h, here, sym same, e) refl
    | inr other ↦ rw (get_elem?-put store p q (record it { index = k }) h, other) refl
  ]

  index_at-put :
      (store : List (Item V P)) (p q k : ℕ) (it : Item V P)
      → p < length store
      → index_at (put store p (record it { index = k })) q
        ≡ (if p == q then k else index_at store q)
  index_at-put store p q k it h = elim (Bool-cases (p == q)) [
    | inl here ↦ rw (get_elem?-put store p q (record it { index = k }) h, here) refl
    | inr other ↦ rw (get_elem?-put store p q (record it { index = k }) h, other) refl
  ]

  -- what writing an index does
  record Numbered (h : ItemHeap V P) (i : ℕ) (h' : ItemHeap V P) : Type 0 where
    slots : h'.slots ≡ h.slots
    stored : length h'.store ≡ length h.store
    contents : (p : ℕ) → content h'.store p ≡ content h.store p
    indices : (p : ℕ) → index_at h'.store p ≡ (if ptr h.slots i == p then i else index_at h.store p)

  number-Numbered :
      (lt : P → P → Bool) (h : ItemHeap V P) (i : ℕ)
      → i < length h.slots
      → ptr h.slots i < length h.store
      → Gives (Numbered h i) (number lt h i)
  unfolding number
  number-Numbered lt h i hi hp =
      let (it, e) = content-some h.store (ptr h.slots i) hp in
      let wrote = set-put h.store (ptr h.slots i) (record it { index = i }) hp in
      rw (at-ptr h.slots i hi) (
        rw e (
          rw wrote (
            gives (record {
              slots = refl;
              stored = length-put h.store (ptr h.slots i) (record it { index = i });
              contents = λ p. content-put h.store (ptr h.slots i) p i it e hp;
              indices = λ p. index_at-put h.store (ptr h.slots i) p i it hp;
            }))))

  -- what swapping two entries leaves
  record Swapped (h : ItemHeap V P) (i j : ℕ) (h' : ItemHeap V P) : Type 0 where
    slots : h'.slots ≡ exchange h.slots i j
    stored : length h'.store ≡ length h.store
    contents : (p : ℕ) → content h'.store p ≡ content h.store p
    indices :
        (p : ℕ)
        → index_at h'.store p
          ≡ (if ptr h.slots i == p then j else if ptr h.slots j == p then i else index_at h.store p)

  module _ (lt : P → P → Bool) (h : ItemHeap V P) (i j : ℕ) (s : IsSound h)
      (hi : i < length h.slots) (hj : j < length h.slots) where
    abbrev exchanged : ItemHeap V P
    exchanged = record h { slots = exchange h.slots i j }

    length-exchanged : length exchanged.slots ≡ length h.slots
    length-exchanged = length-exchange h.slots i j

    ptr-exchanged : (c : ℕ) → ptr exchanged.slots c ≡ ptr h.slots (turn i j c)
    ptr-exchanged c = ptr-exchange h.slots i j c hi hj

    swap-Swapped : Gives (Swapped h i j) (swap lt h i j)
    unfolding swap
    swap-Swapped =
        let first : ptr exchanged.slots i < length h.store =
          rw (ptr-exchanged i) (ground (arith, s.bounded i, s.bounded j)) in
        rw (at-ptr h.slots i hi, at-ptr h.slots j hj)
          (rw (set-put h.slots i (ptr h.slots j) hi) (
            rw
              (set-put (put h.slots i (ptr h.slots j)) j (ptr h.slots i)
                (omega (arith, hj, length-put h.slots i (ptr h.slots j))))
              (Gives-bind
                (number-Numbered lt exchanged i (omega (arith, hi, length-exchanged)) first)
                λ a m.
                  Gives-map
                    (number-Numbered lt a j (rw m.slots (omega (arith, hj, length-exchanged)))
                      (rw (m.slots, m.stored, ptr-exchanged j) (ground (arith, s.bounded i))))
                    λ b k. record {
                      slots = k.slots ∙ m.slots;
                      stored = k.stored ∙ m.stored;
                      contents = λ p. k.contents p ∙ m.contents p;
                      indices = λ p.
                          k.indices p
                          ∙ (rw (m.slots, m.indices p, ptr-exchanged i, ptr-exchanged j)
                              (ground arith));
                    })))

    -- the index of the item that was at `d`
    index-Swapped :
        (h' : ItemHeap V P) (d : ℕ)
        → Swapped h i j h'
        → d < length h.slots
        → index_at h'.store (ptr h.slots d) ≡ turn i j d
    index-Swapped h' d m hd =
        m.indices (ptr h.slots d)
        ∙ ground (
          arith,
          IsSound-injective h i d s hi hd,
          IsSound-injective h j d s hj hd,
          s.indexed d hd,
        )

    Swapped-IsSound : (h' : ItemHeap V P) → Swapped h i j h' → IsSound h'
    Swapped-IsSound h' m = record {
      bounded = λ c l.
          rw (m.slots, m.stored, ptr-exchanged c) (s.bounded (turn i j c) (inside c (short c l)));
      indexed = λ c l.
          rw (m.slots, ptr-exchanged c)
            (index-Swapped h' (turn i j c) m (inside c (short c l)) ∙ ground arith);
    }
      where
        short : (c : ℕ) → c < length h'.slots → c < length h.slots
        short c l = omega (arith, ap length m.slots, length-exchanged, l)

        inside : (c : ℕ) → c < length h.slots → turn i j c < length h.slots
        inside c l = ground arith

    pub swap-Moved :
        (n : ℕ)
        → i < n
        → j < n
        → n ≤ length h.slots
        → Gives (λ h'. Moved n h h' × (h'.slots ≡ exchange h.slots i j)) (swap lt h i j)
    swap-Moved n p q size = Gives-map swap-Swapped λ h' m. (
      record {
        sound = Swapped-IsSound h' m;
        contents = m.contents;
        stored = m.stored;
        size = ap length m.slots ∙ length-exchanged;
        tail = λ c l. rw (m.slots, ptr-exchanged c) (ground arith);
        from = λ c l. (turn i j c, ground arith, rw (m.slots, ptr-exchanged c) refl);
        to = λ c l.
            (turn i j c, ground arith, rw (m.slots, ptr-exchanged (turn i j c)) (ground arith));
      },
      m.slots,
    )
