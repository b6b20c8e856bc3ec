-- ===== src/Queue.antt =====
-- pkg/queue/priority_queue.go. The values are compared as keys of a map by `same`, and the priorities,
-- floating-point numbers, by `lt`. The locks are left out: an operation is one step.
pub mod Heap
pub mod Slots
pub mod Order
pub mod Moved
pub mod Sift
pub mod Sink
pub mod Root
pub mod Container
pub mod Remove
pub mod Push
pub mod Lookup
pub mod Valid
pub mod Spec
pub mod Refine
pub mod Taking
pub mod Runs
pub mod Ties
pub mod Forget
pub mod Metrics
pub mod Metered
pub mod Reported
pub mod Delaying
pub mod Counting
mod Tests
mod Examples
use kube_service_exporter.Base.{
  ℕ, ◌+◌, Bool, true, false, Option, none, some, List, [], ◌∷◌, ◌==◌, if◌then◌else◌, length, lookup,
}
use kube_service_exporter.Go.Run.{Run, ok, err, ◌>>=◌, empty_queue}
use Heap.{Item, ItemHeap, heap_push, heap_pop, heap_remove, at}

module _ {V : Type 0} (same : V → V → Bool) where
  -- `m[v]` and `delete(m, v)`
  unfoldable pub find : {A : Type 0} → V → List (V × A) → Option A
  find v [] = none
  find v (e ∷ m) = let rest = find v m in if same e.0 v then some e.1 else rest

  unfoldable pub drop_key : {A : Type 0} → V → List (V × A) → List (V × A)
  drop_key v [] = []
  drop_key v (e ∷ m) = let rest = drop_key v m in if same e.0 v then rest else e ∷ rest

module _ (V P : Type 0) where
  pub record PriorityQueue : Type 0 where
    pub failures : List (V × ℕ)
    pub items : ItemHeap V P
    pub lookup : List (V × ℕ)

  unfoldable pub new_priority_queue : PriorityQueue
  new_priority_queue = record {
    failures = [];
    items = record { slots = []; store = [] };
    lookup = [];
  }

module _ {V P : Type 0} (same : V → V → Bool) (lt : P → P → Bool) where
  unfoldable pub len : PriorityQueue V P → ℕ
  len q = length q.items.slots

  unfoldable pub is_known : Option ℕ → Bool
  is_known none = false
  is_known (some p) = true

  -- Add; the new item's pointer is the next place of the store
  unfoldable pub add : V → P → PriorityQueue V P → Run (PriorityQueue V P)
  unfolding find heap_push is_known
  add v priority q = if is_known (find same v q.lookup) then ok q else do
    items ← heap_push lt q.items (record { value = v; priority = priority; index = 0 })
    ok (record q { items = items; lookup = (v, length q.items.store) ∷ q.lookup })

  -- what is left behind heap.Pop
  unfoldable pub taken_from : PriorityQueue V P → Item V P × ItemHeap V P → V × PriorityQueue V P
  unfolding drop_key
  taken_from q (it, items) =
      (it.value, record q { items = items; lookup = drop_key same it.value q.lookup })

  -- Get
  unfoldable pub get : PriorityQueue V P → Run (V × PriorityQueue V P)
  get q =
      if length q.items.slots == 0
      then err empty_queue
      else heap_pop lt q.items >>= λ r. ok (taken_from q r)

  -- NumRequeues: a missing key counts as 0
  unfoldable pub num_requeues : V → PriorityQueue V P → ℕ
  unfolding find
  num_requeues v q = elim (find same v q.failures) [ none ↦ 0 | some n ↦ n ]

  -- Forget
  unfoldable pub forget : V → PriorityQueue V P → Run (PriorityQueue V P)
  unfolding find drop_key
  forget v q = elim (find same v q.lookup) [
    | none ↦ ok q
    | some p ↦ at q.items.store p >>= λ it. heap_remove lt q.items it.index >>= λ r. ok (record {
      failures = drop_key same v q.failures;
      items = r.1;
      lookup = drop_key same v q.lookup;
    })
  ]

  -- Failed
  unfoldable pub failed : V → PriorityQueue V P → PriorityQueue V P
  unfolding num_requeues
  failed v q = record q { failures = (v, num_requeues v q + 1) ∷ q.failures }

  -- Peek
  pub peek : V → PriorityQueue V P → Run (Item V P)
  unfolding find
  peek v q = elim (find same v q.lookup) [ none ↦ err empty_queue | some p ↦ at q.items.store p ]
