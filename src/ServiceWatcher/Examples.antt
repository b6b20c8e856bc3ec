-- ===== src/ServiceWatcher/Examples.antt =====
-- The watcher at work on a queue in order of arrival: its theorems at concrete inputs.
use kube_service_exporter.Base.{
  ◌<◌, ◌≡◌, refl, Option, none, some, List, [], ◌∷◌, ◌++◌, arith, length, Text, codes,
}
use kube_service_exporter.Go.Run.{Error}
use kube_service_exporter.Kube.{Service}
use kube_service_exporter.Export.{Indexed, found}
use kube_service_exporter.Export.Tests.{no_json, empty_index, web, runs}
use kube_service_exporter.ServiceWatcher.{
  update_op, KeyOp, new_key_op, service, Queue, update_service, exported_of,
}
use kube_service_exporter.ServiceWatcher.Calls.{Call, recorder}
use kube_service_exporter.ServiceWatcher.Handlers.{listed}
use kube_service_exporter.ServiceWatcher.Pairing.{UpdatesMade, update_service-UpdatesMade}
use kube_service_exporter.ServiceWatcher.Process.{State, process_next_item, run_worker}
use kube_service_exporter.ServiceWatcher.Panics.{is_panic, next_panics, process_next_item-panics}
use kube_service_exporter.ServiceWatcher.Drain.{Sized, Ended, run_worker-Ended}

abbrev accepts_all : Call → Option Error
accepts_all call = none

abbrev take_first : List KeyOp → Option KeyOp × List KeyOp
take_first [] = (none, [])
take_first (ko ∷ q) = (some ko, q)

abbrev in_order : Queue
in_order = record {
  Pending = List KeyOp;
  add = λ ko q. q ++ ko ∷ [];
  get = take_first;
  forget = λ handle q. q;
}

take_first_lt :
    (q : List KeyOp) (ko : KeyOp) → (take_first q).0 ≡ some ko → length (take_first q).1 < length q
take_first_lt [] ko e = cc
take_first_lt (first ∷ q) ko e = omega arith

abbrev in_order_sized : Sized in_order
in_order_sized = record {
  size = length;
  get_lt = take_first_lt;
  forget_le = λ handle q. omega arith;
}

-- the Service under another type
abbrev internal_web : Service
internal_web = record web { type = codes "ClusterIP" }

abbrev web_update : KeyOp
web_update = new_key_op (codes "default/web") (service web) update_op

abbrev web_index : Text → Indexed
web_index key = found web

abbrev two_updates : State (recorder accepts_all) in_order
two_updates = record {
  cache_olds = (codes "default/web", web) ∷ [];
  queue = web_update ∷ web_update ∷ [];
  world = [];
}

update_service-UpdatesMade_example :
    UpdatesMade accepts_all
      (listed (exported_of no_json (codes "c1") empty_index web))
      (exported_of no_json (codes "c1") empty_index web)
      []
      (update_service (recorder accepts_all) no_json (codes "c1") empty_index (some web) web [])
unfolding runs
update_service-UpdatesMade_example =
    update_service-UpdatesMade accepts_all no_json (codes "c1") empty_index web web [] refl

process_next_item-panics_example :
    is_panic
      (process_next_item
        (recorder accepts_all)
        in_order
        no_json
        (codes "c1")
        web_index
        two_updates).0
    ≡ next_panics web_index two_updates.cache_olds (some web_update)
process_next_item-panics_example =
    process_next_item-panics accepts_all in_order no_json (codes "c1") web_index two_updates

run_worker-Ended_example :
    Ended
      (run_worker (recorder accepts_all) in_order no_json (codes "c1") web_index 3 two_updates).0
run_worker-Ended_example =
    run_worker-Ended (recorder accepts_all) in_order in_order_sized no_json (codes "c1") web_index 3
      two_updates (omega arith)
