-- ===== src/Queue/Ties.antt =====
-- Values of one priority do not come out in the order in which they were put in.
use kube_service_exporter.Base.{◌≡◌, refl, Bool, false, Option, none, some, List, [], ◌∷◌}
use kube_service_exporter.Go.Run.{Run, ok, err, panic}
use kube_service_exporter.Queue.{
  PriorityQueue, new_priority_queue, add, get, find, is_known, taken_from,
}
use kube_service_exporter.Queue.Heap.{item_at, heap_push, heap_pop}
use kube_service_exporter.Queue.Spec.{add_call, get_call}
use kube_service_exporter.Queue.Runs.{perform, run_calls}

module _ {V P : Type 0} (same : V → V → Bool) (lt : P → P → Bool) where
  abbrev pub answers : Run (List (Option V) × PriorityQueue V P) → List (Option V)
  answers (ok r) = r.0
  answers (err e) = []
  answers panic = []

  -- Three different values that are added to a new queue with the same priority come out as the first, the
  -- third, the second: the queue does not keep the order of arrival.
  pub get_ties :
      (a b c : V) (x : P)
      → lt x x ≡ false
      → same a b ≡ false
      → same a c ≡ false
      → same b c ≡ false
      → answers (
          run_calls same lt
            (add_call a x ∷ add_call b x ∷ add_call c x ∷ get_call ∷ get_call ∷ get_call ∷ [])
            (new_priority_queue V P))
        ≡ none ∷ none ∷ none ∷ some a ∷ some c ∷ some b ∷ []
  unfolding run_calls perform new_priority_queue add get find is_known heap_push item_at heap_pop
      taken_from
  get_ties a b c x tie p q r = rw tie (rw p (rw (q, r) (rw tie (rw tie refl))))
