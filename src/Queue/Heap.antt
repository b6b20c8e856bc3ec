-- ===== src/Queue/Heap.antt =====
-- pkg/queue/queue.go: the heap of pointers to items that container/heap works on. A pointer is a
-- place in the store, which only grows. An index out of range panics. The loops of container/heap run on fuel;
-- each of them halves or doubles its index, so that the length of the heap is enough.
use kube_service_exporter.Base.{
  ℕ, zero, suc, ◌+◌, ◌-◌, ◌*◌, ◌/◌, Bool, not, List, [], ◌∷◌, ◌++◌, ltb, leb, ◌==◌, if◌then◌else◌,
  length, get_elem?,
}
use kube_service_exporter.Go.Run.{Run, ok, panic, ◌>>=◌, or_else}

-- `l[i] = a`
abbrev pub set : {A : Type 0} → List A → ℕ → A → Run (List A)
set [] i a = panic
set (x ∷ l) zero a = ok (a ∷ l)
set (x ∷ l) (suc i) a = set l i a >>= λ rest. ok (x ∷ rest)

-- `l[i]`
abbrev pub at : {A : Type 0} → List A → ℕ → Run A
at l i = or_else (get_elem? l i) panic

-- the slice without its last element
abbrev pub but_last : {A : Type 0} → List A → List A
but_last [] = []
but_last (x ∷ []) = []
but_last (x ∷ y ∷ l) = x ∷ but_last (y ∷ l)

module _ (V P : Type 0) where
  pub record Item : Type 0 where
    pub value : V
    pub priority : P
    pub index : ℕ

  -- itemHeap, and the items that its pointers lead to
  pub record ItemHeap : Type 0 where
    pub slots : List ℕ
    pub store : List Item

module _ {V P : Type 0} (lt : P → P → Bool) where
  unfoldable pub item_at : ItemHeap V P → ℕ → Run (Item V P)
  item_at h i = do p ← at h.slots i; at h.store p

  unfoldable pub less : ItemHeap V P → ℕ → ℕ → Run Bool
  less h i j = do a ← item_at h i; b ← item_at h j; ok (lt a.priority b.priority)

  -- `(*ih)[i].index = i`
  unfoldable pub number : ItemHeap V P → ℕ → Run (ItemHeap V P)
  number h i = do
    p ← at h.slots i
    it ← at h.store p
    store ← set h.store p (record it { index = i })
    ok (record h { store = store })

  unfoldable pub swap : ItemHeap V P → ℕ → ℕ → Run (ItemHeap V P)
  unfolding number
  swap h i j = do
    p ← at h.slots i
    q ← at h.slots j
    slots ← set h.slots i q
    slots' ← set slots j p
    h' ← number (record h { slots = slots' }) i
    number h' j

  -- Push: the pointer of the new item is the next place of the store
  unfoldable pub push_item : ItemHeap V P → Item V P → ItemHeap V P
  push_item h it = record {
    slots = h.slots ++ length h.store ∷ [];
    store = h.store ++ record it { index = length h.slots } ∷ [];
  }

  -- Pop
  unfoldable pub pop_item : ItemHeap V P → Run (Item V P × ItemHeap V P)
  unfolding item_at
  pop_item h = do
    it ← item_at h (length h.slots - 1)
    ok (it, record h { slots = but_last h.slots })

  -- heap.up
  unfoldable pub up : ℕ → ItemHeap V P → ℕ → Run (ItemHeap V P)
  up zero h j = ok h
  up (suc fuel) h j =
      let i = (j - 1) / 2 in
      if i == j
      then ok h
      else less h j i >>= λ smaller. if not smaller then ok h else swap h i j >>= λ h'. up fuel h' i

  -- the smaller one of the children of a place
  unfoldable pub child : ItemHeap V P → ℕ → ℕ → Run ℕ
  unfolding less
  child h j n =
      if ltb (j + 1) n
      then (less h (j + 1) j >>= λ right. ok (if right then j + 1 else j))
      else ok j

  -- heap.down, with the place where it ends
  unfoldable pub down : ℕ → ItemHeap V P → ℕ → ℕ → Run (ItemHeap V P × ℕ)
  down zero h i n = ok (h, i)
  down (suc fuel) h i n =
      if leb n (2 * i + 1)
      then ok (h, i)
      else child h (2 * i + 1) n >>= λ j. less h j i >>= λ smaller.
          if not smaller then ok (h, i) else swap h i j >>= λ h'. down fuel h' j n

  -- heap.Push
  unfoldable pub heap_push : ItemHeap V P → Item V P → Run (ItemHeap V P)
  unfolding push_item up swap less
  heap_push h it = let h' = push_item h it in up (length h'.slots) h' (length h'.slots - 1)

  -- heap.Pop
  unfoldable pub heap_pop : ItemHeap V P → Run (Item V P × ItemHeap V P)
  unfolding pop_item down child swap less
  heap_pop h = do
    h' ← swap h 0 (length h.slots - 1)
    (h'', i) ← down (length h.slots) h' 0 (length h.slots - 1)
    pop_item h''

  -- heap.Remove
  unfoldable pub heap_remove : ItemHeap V P → ℕ → Run (Item V P × ItemHeap V P)
  unfolding pop_item up down child swap less
  heap_remove h i =
      let n = length h.slots - 1 in
      if n == i then pop_item h else do
        h' ← swap h i n
        (h'', j) ← down (length h.slots) h' i n
        h3 ← (if ltb i j then ok h'' else up (length h.slots) h'' i)
        pop_item h3
