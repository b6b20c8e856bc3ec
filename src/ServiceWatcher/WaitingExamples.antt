-- ===== src/ServiceWatcher/WaitingExamples.antt =====
-- The watcher at work on the priority queue.
use kube_service_exporter.Base.{ℕ, ◌≡◌, refl, Bool, Option, none, [], ◌∷◌, arith, ltb, codes}
use kube_service_exporter.Kube.{Service, ServicePort}
use kube_service_exporter.Go.Int.{ℤ}
use kube_service_exporter.Export.Tests.{no_json, web}
use native.Mathlib.Decide.{ℕ_discrete}
use kube_service_exporter.Export.{found}
use kube_service_exporter.Go.Run.{Gives-ok, Error, ok}
use kube_service_exporter.Queue.{PriorityQueue, new_priority_queue, len, add, find}
use kube_service_exporter.Queue.Heap.{item_at}
use kube_service_exporter.Queue.Order.{ltb-IsWeakOrder}
use kube_service_exporter.Queue.Lookup.{IsEquality, decided, decided-IsEquality}
use kube_service_exporter.Queue.Valid.{IsValid}
use kube_service_exporter.Queue.Runs.{new-IsValid}
use kube_service_exporter.ServiceWatcher.{
  Operation, add_op, Object, service, Queue, KeyOp, new_key_op,
}
use kube_service_exporter.ServiceWatcher.Calls.{Call, recorder}
use kube_service_exporter.ServiceWatcher.Process.{State, run_worker}
use kube_service_exporter.ServiceWatcher.Drain.{Ended}
use kube_service_exporter.ServiceWatcher.Waiting.{priority_queue, run_worker-len, add-IsValid}

ℤ-discrete : Discrete ℤ
ℤ-discrete = hlevel (ℕ_discrete)

ServicePort-discrete : Discrete ServicePort
ServicePort-discrete = hlevel (ℤ-discrete, ℕ_discrete)

Service-discrete : Discrete Service
Service-discrete = hlevel (ServicePort-discrete, ℕ_discrete)

Operation-discrete : Discrete Operation
Operation-discrete = hlevel

Object-discrete : Discrete Object
Object-discrete = hlevel (Service-discrete)

KeyOp-discrete : Discrete KeyOp
KeyOp-discrete = hlevel (Object-discrete, Operation-discrete, ℕ_discrete)

abbrev accepts_all : Call → Option Error
accepts_all call = none

abbrev same_key_op : KeyOp → KeyOp → Bool
same_key_op = decided KeyOp-discrete

same_key_op-IsEquality : IsEquality same_key_op
same_key_op-IsEquality = decided-IsEquality KeyOp-discrete

abbrev key_ops : Queue
key_ops = priority_queue same_key_op ltb same_key_op-IsEquality ltb-IsWeakOrder 0

abbrev web_op : KeyOp
web_op = new_key_op (codes "default/web") (service web) add_op

-- one Service waits
abbrev one_waiting : PriorityQueue KeyOp ℕ
one_waiting = record {
  failures = [];
  items = record {
    slots = 0 ∷ [];
    store = record { value = web_op; priority = 0; index = 0 } ∷ [];
  };
  lookup = (web_op, 0) ∷ [];
}

add_web : add same_key_op ltb web_op 0 (new_priority_queue KeyOp ℕ) ≡ ok one_waiting
unfolding add find new_priority_queue item_at
add_web = refl

one_waiting-IsValid : IsValid same_key_op ltb one_waiting
one_waiting-IsValid =
    Gives-ok
      (add-IsValid same_key_op ltb same_key_op-IsEquality ltb-IsWeakOrder 0 web_op (
        new_priority_queue KeyOp ℕ,
        new-IsValid same_key_op ltb same_key_op-IsEquality ltb-IsWeakOrder,
      ))
      add_web

abbrev web_added : State (recorder accepts_all) key_ops
web_added = record { cache_olds = []; queue = (one_waiting, one_waiting-IsValid); world = [] }

run_worker-len_example :
    Ended
      (run_worker
        (recorder accepts_all)
        key_ops
        no_json
        (codes "c1")
        (λ key. found web)
        2
        web_added).0
unfolding len
run_worker-len_example =
    run_worker-len same_key_op ltb same_key_op-IsEquality ltb-IsWeakOrder 0 (recorder accepts_all)
      no_json (codes "c1") (λ key. found web) 2 web_added (omega arith)
