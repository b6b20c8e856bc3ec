-- ===== src/Queue/Runs.antt =====
-- Calls of the queue one after the other, from a new queue on.
use kube_service_exporter.Base.{
  ◌≡◌, refl, inl, inr, Bool, true, Option, none, some, List, [], ◌∷◌, arith, ◌==◌, Bool-cases,
  length,
}
use kube_service_exporter.Go.Run.{
  Gives, gives, Gives-bind, Gives-map, Run, ok, err, panic, ◌>>=◌, empty_queue,
}
use kube_service_exporter.Queue.{
  PriorityQueue, new_priority_queue, add, get, forget, failed, num_requeues, find, len,
}
use kube_service_exporter.Queue.Order.{IsWeakOrder}
use kube_service_exporter.Queue.Lookup.{IsEquality}
use kube_service_exporter.Queue.Valid.{IsValid}
use kube_service_exporter.Queue.Refine.{view, add_lem}
use kube_service_exporter.Queue.Taking.{Got, waits-place, get_lem, forget_lem, failed_lem}
use kube_service_exporter.Queue.Spec.{
  Call, add_call, get_call, forget_call, failed_call, spec_new, Step, added, forgotten, failed_once,
  empty, taken, Steps, done, step,
}

module _ {V P : Type 0} (same : V → V → Bool) (lt : P → P → Bool) where
  -- an error of Get leaves the queue as it was
  abbrev answered :
      PriorityQueue V P → Run (V × PriorityQueue V P) → Run (Option V × PriorityQueue V P)
  answered q (ok r) = ok (some r.0, r.1)
  answered q (err e) = ok (none, q)
  answered q panic = panic

  unfoldable pub perform : Call V P → PriorityQueue V P → Run (Option V × PriorityQueue V P)
  perform (add_call v x) q = add same lt v x q >>= λ q'. ok (none, q')
  perform get_call q = answered q (get same lt q)
  perform (forget_call v) q = forget same lt v q >>= λ q'. ok (none, q')
  perform (failed_call v) q = ok (none, failed same lt v q)

  unfoldable pub run_calls :
      List (Call V P) → PriorityQueue V P → Run (List (Option V) × PriorityQueue V P)
  run_calls [] q = ok ([], q)
  run_calls (c ∷ calls) q = perform c q >>= λ r. run_calls calls r.1 >>= λ r'. ok (r.0 ∷ r'.0, r'.1)

  module _ (law : IsEquality same) (order : IsWeakOrder lt) where
    pub new-IsValid : IsValid same lt (new_priority_queue V P)
    unfolding new_priority_queue find
    new-IsValid = record {
      ordered = record {
        sound = record {
          bounded = λ i l. absurd (omega arith);
          indexed = λ i l. absurd (omega arith);
        };
        heap = λ c p q. absurd (omega arith);
      };
      listed = λ c v x l e. absurd (omega arith);
      held = λ v p e. cc;
    }

    new-view : view same lt (new_priority_queue V P) ≡ spec_new same
    unfolding new_priority_queue find num_requeues spec_new
    new-view = refl

    none_waits :
        (q : PriorityQueue V P)
        → IsValid same lt q
        → len same lt q ≡ 0
        → (v : V) → (view same lt q).waiting v ≡ none
    unfolding len
    none_waits q s size v = go ((view same lt q).waiting v) refl
      where
        go : (x : Option P) → (view same lt q).waiting v ≡ x → x ≡ none
        go none e = refl
        go (some y) e =
            let (c, inside, k) = waits-place same lt law order q v y s e in absurd (omega arith)

    -- what a call does to a valid queue: an answer and a valid queue, as the specification has them
    pub Performed : PriorityQueue V P → Call V P → Option V × PriorityQueue V P → Type 0
    Performed q c r = IsValid same lt r.1 × Step same lt (view same lt q) c r.0 (view same lt r.1)

    pub get-empty : (q : PriorityQueue V P) → len same lt q ≡ 0 → get same lt q ≡ err empty_queue
    unfolding get len
    get-empty q size =
        let none_left : (length q.items.slots == 0) ≡ true = ground (arith, size) in
        rw none_left refl

    answered-Performed :
        (q : PriorityQueue V P) (r : Run (V × PriorityQueue V P))
        → Gives (Got same lt law order q) r
        → Gives (Performed q get_call) (answered q r)
    unfolding Performed
    answered-Performed q r (gives t) = gives (t.valid, rw t.after (taken _ t.first))

    perform_get-Performed :
        (q : PriorityQueue V P)
        → IsValid same lt q
        → Gives (Performed q get_call) (answered q (get same lt q))
    unfolding Performed
    perform_get-Performed q s = elim (Bool-cases (len same lt q == 0)) [
      | inl none_left ↦
          let size : len same lt q ≡ 0 = ground arith in
          rw (get-empty q size) (gives (s, empty (none_waits q s size)))
      | inr full ↦
          answered-Performed q (get same lt q) (get_lem same lt law order q s (ground arith))
    ]

    -- Every call of Add, Get, Forget or Failed on a valid queue returns and leaves a valid queue, and what it
    -- answers and leaves is a step of the specification. A queue is valid when its items form a heap whose
    -- items know their places, and the lookup table leads to exactly these items. Keys are told apart by
    -- equality, and the comparison of priorities is a weak order.
    pub perform-Performed :
        (c : Call V P) (q : PriorityQueue V P)
        → IsValid same lt q
        → Gives (Performed q c) (perform c q)
    unfolding perform Performed
    perform-Performed (add_call v x) q s =
        Gives-bind (add_lem same lt law order q v x s) λ q' (s', e). gives (s', rw e (added v x))
    perform-Performed get_call q s = perform_get-Performed q s
    perform-Performed (forget_call v) q s =
        Gives-bind (forget_lem same lt law order q v s)
          λ q' t. gives (t.valid, rw t.after (forgotten v))
    perform-Performed (failed_call v) q s =
        let (s', e) = failed_lem same lt law order q v s in gives (s', rw e (failed_once v))

    pub run_calls-Steps :
        (calls : List (Call V P)) (q : PriorityQueue V P)
        → IsValid same lt q
        → Gives
            (λ r. IsValid same lt r.1 × Steps same lt (view same lt q) calls r.0 (view same lt r.1))
            (run_calls calls q)
    unfolding run_calls Performed
    run_calls-Steps [] q s = gives (s, done)
    run_calls-Steps (c ∷ calls) q s = Gives-bind (perform-Performed c q s) λ r (s', e).
        Gives-bind (run_calls-Steps calls r.1 s') λ r' (s'', e'). gives (s'', step e e')

    -- From a new queue on, any sequence of calls of Add, Get, Forget and Failed runs without a panic, and
    -- its answers are those of the specification: a map of the waiting values to their priorities and a
    -- count of failures, of which Get takes away a value that no other one precedes, and answers with an
    -- error only if none waits. Keys are told apart by equality, and the comparison of priorities is a weak
    -- order (no priority is NaN).
    pub new-Steps :
        (calls : List (Call V P))
        → Gives
            (λ r. Steps same lt (spec_new same) calls r.0 (view same lt r.1))
            (run_calls calls (new_priority_queue V P))
    new-Steps calls =
        Gives-map (run_calls-Steps calls (new_priority_queue V P) new-IsValid)
          λ r (s, e). rw new-view at e
