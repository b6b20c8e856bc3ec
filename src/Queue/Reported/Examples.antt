-- ===== src/Queue/Reported/Examples.antt =====
-- The queue with its metrics at work on numbers: the theorems at concrete inputs.
use kube_service_exporter.Base.{ℕ, ◌≡◌, Bool, List, [], ◌∷◌, map, arith, ltb, ◌==◌, Text, codes}
use kube_service_exporter.Go.Run.{Gives, ok}
use kube_service_exporter.Queue.{new_priority_queue}
use kube_service_exporter.Queue.Order.{ltb-IsWeakOrder}
use kube_service_exporter.Queue.Lookup.{IsEquality}
use kube_service_exporter.Queue.Runs.{run_calls}
use kube_service_exporter.Queue.Metered.{
  TimedCall, add_at, get_at, statsd_metrics, metered_forget, run_metered,
}
use kube_service_exporter.Queue.Reported.{plain}
use kube_service_exporter.Queue.Reported.Histories.{
  start, run_metered-run_calls, metered_forget-silent,
}

abbrev equal : ℕ → ℕ → Bool
equal a b = a == b

equal-IsEquality : IsEquality equal
equal-IsEquality = record { sound = λ a b e. ground arith; reflexive = λ a. ground arith }

abbrev no_text : ℕ → Text
no_text x = []

-- two values are added, and one of them is taken
abbrev three_calls : List (TimedCall ℕ ℕ)
three_calls = add_at 100 7 0 ∷ add_at 110 8 0 ∷ get_at 120 121 ∷ []

run_metered-run_calls_example :
    Gives
      (λ r.
        run_calls equal ltb (map plain three_calls) (new_priority_queue ℕ ℕ) ≡ ok (r.0, r.1.queue))
      (run_metered equal ltb
        (statsd_metrics no_text)
        three_calls
        (start equal ltb no_text equal-IsEquality ltb-IsWeakOrder [] (codes "h")))
run_metered-run_calls_example =
    run_metered-run_calls equal ltb no_text equal-IsEquality ltb-IsWeakOrder [] (codes "h")
      three_calls

-- the value that was taken is forgotten
metered_forget-silent_example :
    Gives
      (λ r.
        Gives
          (λ s'. s'.metrics ≡ r.1.metrics)
          (metered_forget equal ltb (statsd_metrics no_text) 130 7 r.1))
      (run_metered equal ltb
        (statsd_metrics no_text)
        three_calls
        (start equal ltb no_text equal-IsEquality ltb-IsWeakOrder [] (codes "h")))
metered_forget-silent_example =
    metered_forget-silent equal ltb no_text equal-IsEquality ltb-IsWeakOrder [] (codes "h")
      three_calls 130 7
