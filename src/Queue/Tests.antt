-- ===== src/Queue/Tests.antt =====
-- Runs of the priority queue, with numbers as values and as priorities.
use kube_service_exporter.Base.{ℕ, zero, suc, ◌≡◌, refl, Bool, List, [], ◌∷◌, ltb, ◌==◌}
use kube_service_exporter.Go.Run.{Run, ok, err, panic, ◌>>=◌}
use kube_service_exporter.Queue.{
  PriorityQueue, new_priority_queue, add, get, forget, num_requeues, taken_from,
}
use kube_service_exporter.Queue.Heap.{item_at, heap_pop, heap_remove}
use kube_service_exporter.Queue.Forget.{forget-get}

abbrev equal : ℕ → ℕ → Bool
equal a b = a == b

-- three values with their priorities
abbrev three : Run (PriorityQueue ℕ ℕ)
three = do
  q ← add equal ltb 10 5 (new_priority_queue ℕ ℕ)
  q' ← add equal ltb 20 1 q
  q'' ← add equal ltb 30 3 q'
  add equal ltb 30 0 q''

-- the values that Get returns, and the error at the end
abbrev drain : ℕ → PriorityQueue ℕ ℕ → List ℕ
drain zero q = []
drain (suc n) q = elim (get equal ltb q) [ ok (v, q') ↦ v ∷ drain n q' | err e ↦ [] | panic ↦ [] ]

abbrev drained : Run (PriorityQueue ℕ ℕ) → List ℕ
drained (ok q) = drain 4 q
drained _ = []

-- the lowest priority comes first, and what is there already is not added again
lowest_first : drained three ≡ 20 ∷ 30 ∷ 10 ∷ []
unfolding add get new_priority_queue item_at heap_pop taken_from
lowest_first = refl

without_twenty : drained (three >>= λ q. forget equal ltb 20 q) ≡ 30 ∷ 10 ∷ []
unfolding add get forget new_priority_queue item_at heap_remove heap_pop taken_from
without_twenty = refl

-- one value, that has failed once
abbrev one_failure : PriorityQueue ℕ ℕ
one_failure = record {
  failures = (7, 1) ∷ [];
  items = record { slots = 0 ∷ []; store = record { value = 7; priority = 0; index = 0 } ∷ [] };
  lookup = (7, 0) ∷ [];
}

abbrev none_left : PriorityQueue ℕ ℕ
none_left = record one_failure {
  items = record { slots = []; store = record { value = 7; priority = 0; index = 0 } ∷ [] };
  lookup = [];
}

forget-get_example :
    (forget equal ltb 7 none_left ≡ ok none_left)
    × (num_requeues equal ltb 7 none_left ≡ num_requeues equal ltb 7 one_failure)
unfolding get taken_from heap_pop
forget-get_example = forget-get equal ltb one_failure 7 none_left refl
