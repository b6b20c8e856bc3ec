-- ===== src/Queue/Examples.antt =====
-- The theorems of the queue at work on numbers.
use kube_service_exporter.Base.{
  ℕ, ◌≡◌, refl, Bool, false, Option, none, some, List, [], ◌∷◌, ◌++◌, arith, ltb, ◌==◌, length,
  Text, codes,
}
use kube_service_exporter.Go.Run.{Gives-ok, Gives, ok}
use kube_service_exporter.Queue.{
  PriorityQueue, new_priority_queue, add, get, len, failed, num_requeues,
}
use kube_service_exporter.Queue.Heap.{Item, item_at, heap_remove}
use kube_service_exporter.Queue.Order.{ltb-IsWeakOrder}
use kube_service_exporter.Queue.Slots.{ptr}
use kube_service_exporter.Queue.Lookup.{IsEquality}
use kube_service_exporter.Queue.Valid.{IsValid}
use kube_service_exporter.Queue.Container.{Removed}
use kube_service_exporter.Queue.Remove.{heap_remove-Removed}
use kube_service_exporter.Queue.Refine.{view}
use kube_service_exporter.Queue.Taking.{Got, get_lem}
use kube_service_exporter.Queue.Spec.{Call, add_call, get_call, failed_call, Steps, spec_new}
use kube_service_exporter.Queue.Runs.{
  run_calls, perform, Performed, new-IsValid, run_calls-Steps, perform-Performed, new-Steps,
}
use kube_service_exporter.Queue.Metrics.{StatsdQueueMetrics}
use kube_service_exporter.Queue.Delaying.{RateLimiting}
use kube_service_exporter.Queue.Counting.{
  add_item, get_item, forget_item, metered_calls, plain_calls, count, metered_calls-count,
}
use kube_service_exporter.Queue.Ties.{answers, get_ties}

abbrev equal : ℕ → ℕ → Bool
equal a b = a == b

equal-IsEquality : IsEquality equal
equal-IsEquality = record { sound = λ a b e. ground arith; reflexive = λ a. ground arith }

abbrev four_calls : List (Call ℕ ℕ)
four_calls = add_call 10 5 ∷ add_call 20 1 ∷ failed_call 10 ∷ add_call 30 3 ∷ []

-- the queue after them
abbrev three_waiting : PriorityQueue ℕ ℕ
three_waiting = record {
  failures = (10, 1) ∷ [];
  items = record {
    slots = 1 ∷ 0 ∷ 2 ∷ [];
    store =
        record { value = 10; priority = 5; index = 1 }
        ∷ record { value = 20; priority = 1; index = 0 }
        ∷ record { value = 30; priority = 3; index = 2 }
        ∷ [];
  };
  lookup = (30, 2) ∷ (20, 1) ∷ (10, 0) ∷ [];
}

run_four :
    run_calls equal ltb four_calls (new_priority_queue ℕ ℕ)
    ≡ ok (none ∷ none ∷ none ∷ none ∷ [], three_waiting)
unfolding run_calls perform add failed num_requeues new_priority_queue item_at
run_four = refl

three_waiting-IsValid : IsValid equal ltb three_waiting
three_waiting-IsValid =
    (Gives-ok
      (run_calls-Steps equal ltb equal-IsEquality ltb-IsWeakOrder four_calls
        (new_priority_queue ℕ ℕ) (new-IsValid equal ltb equal-IsEquality ltb-IsWeakOrder))
      run_four).0

new-Steps_example :
    Gives
      (λ r. Steps equal ltb (spec_new equal) four_calls r.0 (view equal ltb r.1))
      (run_calls equal ltb four_calls (new_priority_queue ℕ ℕ))
new-Steps_example = new-Steps equal ltb equal-IsEquality ltb-IsWeakOrder four_calls

perform-Performed_example :
    Gives
      (Performed equal ltb equal-IsEquality ltb-IsWeakOrder three_waiting get_call)
      (perform equal ltb get_call three_waiting)
perform-Performed_example =
    perform-Performed equal ltb equal-IsEquality ltb-IsWeakOrder get_call three_waiting
      three_waiting-IsValid

get_lem_example :
    Gives
      (Got equal ltb equal-IsEquality ltb-IsWeakOrder three_waiting)
      (get equal ltb three_waiting)
unfolding len
get_lem_example =
    get_lem equal ltb equal-IsEquality ltb-IsWeakOrder three_waiting three_waiting-IsValid
      (omega arith)

heap_remove-Removed_example :
    Gives
      (Removed ltb three_waiting.items (ptr three_waiting.items.slots 1))
      (heap_remove ltb three_waiting.items 1)
heap_remove-Removed_example =
    heap_remove-Removed ltb ltb-IsWeakOrder three_waiting.items 1 three_waiting-IsValid.ordered
      (omega arith)

get_ties_example :
    answers equal ltb (
      run_calls equal ltb
        (add_call 1 0 ∷ add_call 2 0 ∷ add_call 3 0 ∷ get_call ∷ get_call ∷ get_call ∷ [])
        (new_priority_queue ℕ ℕ))
    ≡ none ∷ none ∷ none ∷ some 1 ∷ some 3 ∷ some 2 ∷ []
get_ties_example = get_ties equal ltb 1 2 3 0 refl refl refl refl

abbrev no_text : ℕ → Text
no_text x = []

abbrev item_seven : Item ℕ ℕ
item_seven = record { value = 7; priority = 0; index = 0 }

abbrev quiet_metrics : StatsdQueueMetrics
quiet_metrics = record {
  sent = [];
  add_times = [];
  processing_start_times = [];
  prefix = codes "h";
}

abbrev first_of : List ℕ → Option ℕ × List ℕ
first_of [] = (none, [])
first_of (x ∷ q) = (some x, q)

-- a work queue in order of arrival
abbrev in_order : RateLimiting
in_order = record {
  Pending = List ℕ;
  Item = ℕ;
  add = λ x q. q ++ x ∷ [];
  add_after = λ x t q. q ++ x ∷ [];
  add_rate_limited = λ x q. q ++ x ∷ [];
  forget = λ x q. q;
  num_requeues = λ x q. 0;
  len = λ q. length q;
  get = first_of;
  done = λ x q. q;
  shut_down = λ q. q;
  shut_down_with_drain = λ q. q;
  shutting_down = λ q. false;
}

metered_calls-count_example :
    ((metered_calls (codes "n") in_order (add_item 5 ∷ get_item ∷ forget_item 5 ∷ []) ([], [])).0
      ≡ plain_calls (codes "n") in_order (add_item 5 ∷ get_item ∷ forget_item 5 ∷ []) [])
    × (count
          (codes "n")
          in_order
          (codes "queue.add")
          (metered_calls
            (codes "n")
            in_order
            (add_item 5 ∷ get_item ∷ forget_item 5 ∷ [])
            ([], [])).1
        ≡ 2)
metered_calls-count_example =
    metered_calls-count (codes "n") in_order (add_item 5 ∷ get_item ∷ forget_item 5 ∷ []) ([], [])
