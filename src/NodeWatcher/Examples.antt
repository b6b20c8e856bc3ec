-- ===== src/NodeWatcher/Examples.antt =====
-- The node watcher at work on a queue in order of arrival: its theorems at concrete inputs.
use kube_service_exporter.Base.{
  ℕ, ◌≡◌, refl, true, Option, none, some, List, [], ◌∷◌, ◌++◌, Text, codes,
}
use kube_service_exporter.Go.Run.{ok, panic}
use kube_service_exporter.Kube.{Node, node_ready, condition_true}
use kube_service_exporter.Util.{pretend_ready_until}
use kube_service_exporter.ExportTarget.{ExportTarget}
use kube_service_exporter.ServiceWatcher.{update_op, KeyOp, other}
use kube_service_exporter.NodeWatcher.Lifecycle.{
  NodeLifecycle, new_node_lifecycle, at_work, begin, synced, enter, arrive, take, stop, stop_queue,
  informer_ends, NodeSteps, there, then_step, at_work_after_stop,
}
use kube_service_exporter.NodeWatcher.Process.{
  WorkQueue, IndexedNode, found, NodeState, process_next_node,
}
use kube_service_exporter.NodeWatcher.Turns.{
  verdict_on, settled, world_after, choice, process_next_node-turn,
}

abbrev first_number : Text → Option ℕ
first_number [] = none
first_number (n ∷ s) = some n

abbrev warming_up : Node
warming_up = record {
  name = codes "worker-1";
  annotations = some ((pretend_ready_until, 90 ∷ []) ∷ []);
  unschedulable = true;
  conditions = record { type = node_ready; status = condition_true } ∷ [];
  addresses = [];
}

abbrev everywhere : Text → Option (List Node)
everywhere [] = none
everywhere selector = some (warming_up ∷ [])

abbrev selectors : List Text
selectors = codes "role=edge" ∷ codes "role=node" ∷ []

-- a target that keeps the nodes that were written last
abbrev last_nodes : ExportTarget
last_nodes = record {
  World = List Node;
  create = λ es w. (ok tt, w);
  update = λ old es w. (ok tt, w);
  delete = λ es w. (ok tt, w);
  write_nodes = λ nodes w. (ok tt, nodes);
}

last_nodes_calm : (nodes w : List Node) → ¬ (last_nodes.write_nodes nodes w).0 ≡ panic
last_nodes_calm nodes w e = cc

abbrev take_first : List KeyOp → Option KeyOp × List KeyOp
take_first [] = (none, [])
take_first (ko ∷ q) = (some ko, q)

abbrev in_order : WorkQueue
in_order = record {
  Pending = List KeyOp;
  add = λ ko q. q ++ ko ∷ [];
  get = take_first;
  done = λ ko q. q;
  forget = λ ko q. q;
  add_after = λ ko t q. q ++ ko ∷ [];
}

abbrev node_update : KeyOp
node_update = record { key = codes "worker-1"; attempts = 0; obj = other; operation = update_op }

abbrev node_index : Text → IndexedNode
node_index key = found warming_up

abbrev one_update : NodeState last_nodes in_order
one_update = record { cur_selector = []; queue = node_update ∷ []; world = [] }

process_next_node-turn_example :
    ((
      (process_next_node last_nodes in_order first_number 30 everywhere 1 selectors node_index
          one_update).0,
      (process_next_node last_nodes in_order first_number 30 everywhere 1 selectors node_index
          one_update).1.queue,
    )
      ≡ settled last_nodes in_order node_update
          (verdict_on first_number 30
            (choice last_nodes in_order last_nodes_calm first_number 30 everywhere 1 selectors
              node_index)
            (some (some warming_up)))
          [])
    × ((process_next_node last_nodes in_order first_number 30 everywhere 1 selectors node_index
          one_update).1.world
        ≡ world_after last_nodes in_order
            (some (some warming_up))
            (choice last_nodes in_order last_nodes_calm first_number 30 everywhere 1 selectors
              node_index)
            [])
process_next_node-turn_example =
    process_next_node-turn last_nodes in_order last_nodes_calm first_number 30 everywhere 1
      selectors node_index one_update node_update refl

-- Run is at work on an item, Stop waits, and the informer has ended
abbrev working : NodeLifecycle
working = record new_node_lifecycle { phase = at_work; stopping = true; shut_down = true }

working_reached : NodeSteps new_node_lifecycle working
unfolding new_node_lifecycle
working_reached = then_step (begin refl) (
    then_step (synced refl) (
      then_step (enter refl refl) (
        then_step (arrive refl) (
          then_step (take 0 refl refl) (
            then_step stop
              (then_step (stop_queue refl) (then_step (informer_ends refl refl) there)))))))

-- Stop returns while Run is at work
returned_at_work :
    (w : NodeLifecycle) × NodeSteps working w × (w.stop_returned ≡ true) × (w.phase ≡ at_work)
unfolding new_node_lifecycle
returned_at_work = at_work_after_stop working refl refl refl
