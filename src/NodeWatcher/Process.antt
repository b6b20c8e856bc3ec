-- ===== src/NodeWatcher/Process.antt =====
-- processNextItem of the node watcher.
use kube_service_exporter.Base.{
  ℕ, Bool, true, false, Option, none, some, List, ltb, if◌then◌else◌, Text,
}
use kube_service_exporter.Go.Run.{Run, ok, err, panic}
use kube_service_exporter.Go.Act.{Act}
use kube_service_exporter.Kube.{Node}
use kube_service_exporter.Util.{should_include}
use kube_service_exporter.ExportTarget.{ExportTarget}
use kube_service_exporter.ServiceWatcher.{
  Operation, add_op, update_op, delete_op, Object, KeyOp, new_key_op,
}
use kube_service_exporter.NodeWatcher.{export_nodes}

-- workqueue.RateLimitingInterface, as far as the watcher uses it; Get returns nothing on shutdown
pub record WorkQueue : Type 1 where
  pub Pending : Type 0
  pub add : KeyOp → Pending → Pending
  pub get : Pending → Option KeyOp × Pending
  pub done : KeyOp → Pending → Pending
  pub forget : KeyOp → Pending → Pending
  pub add_after : KeyOp → ℕ → Pending → Pending

-- what the informer's GetByKey returns
pub data IndexedNode : Type 0 where
  lookup_failed absent not_node : IndexedNode
  found : Node → IndexedNode

-- what the turn of an item does to the queue, before Done
pub data Verdict : Type 0 where
  forgotten panicked : Verdict
  again_after : ℕ → Verdict

module _ (parse_time : Text → Option ℕ) (now : ℕ) where
  -- the end of a turn: ShouldInclude reads the node, which is nil for a deletion
  unfoldable pub look_again : Option Node → Verdict
  look_again none = panicked
  look_again (some node) =
      let after = (should_include parse_time now node).1 in
      if ltb 0 after then again_after after else forgotten

  -- The verdict behind exportNodes. Each operation succeeds, so that the retry at the end of the code is
  -- never reached.
  unfoldable pub verdict_of : Run Text → Option Node → Verdict
  unfolding look_again
  verdict_of (ok selector) subject = look_again subject
  verdict_of (err e) subject = look_again subject
  verdict_of panic subject = panicked

module _ (T : ExportTarget) (Q : WorkQueue) where
  pub record NodeState : Type 0 where
    pub cur_selector : Text
    pub queue : Q.Pending
    pub world : T.World

  enqueue_node : Operation → Object → Option Text → NodeState → NodeState
  enqueue_node op obj none s = s
  enqueue_node op obj (some key) s = record s { queue = Q.add (new_key_op key obj op) s.queue }

  -- AddFunc, UpdateFunc and DeleteFunc
  module _ (key_of deleted_key_of : Object → Option Text) where
    pub on_add_node : Object → NodeState → NodeState
    unfolding enqueue_node
    on_add_node obj s = enqueue_node add_op obj (key_of obj) s

    pub on_update_node : Object → Object → NodeState → NodeState
    unfolding enqueue_node
    on_update_node old new s = enqueue_node update_op new (key_of new) s

    pub on_delete_node : Object → NodeState → NodeState
    unfolding enqueue_node
    on_delete_node obj s = enqueue_node delete_op obj (deleted_key_of obj) s

  -- Forget or AddAfter, and the deferred Done
  unfoldable pub settle : KeyOp → Verdict → NodeState → Run Bool × NodeState
  settle ko forgotten s = (ok true, record s { queue = Q.done ko (Q.forget ko s.queue) })
  settle ko (again_after t) s = (ok true, record s { queue = Q.done ko (Q.add_after ko t s.queue) })
  settle ko panicked s = (panic, record s { queue = Q.done ko s.queue })

  unfoldable pub keep_selector : Run Text → NodeState → NodeState
  keep_selector (ok selector) s = record s { cur_selector = selector }
  keep_selector (err e) s = s
  keep_selector panic s = s

  module _ (parse_time : Text → Option ℕ) (now : ℕ) (list : Text → Option (List Node))
      (min_count : ℕ) (selectors : List Text) (index : Text → IndexedNode) where
    -- the switch, and what follows it: each operation exports the nodes
    unfoldable pub export_and_look : KeyOp → Option Node → Act NodeState Bool
    unfolding settle verdict_of keep_selector
    export_and_look ko node s =
        let (r, w) = export_nodes parse_time now list min_count T selectors s.world in
        settle ko (verdict_of parse_time now r node) (keep_selector r (record s { world = w }))

    unfoldable pub process_indexed_node : KeyOp → IndexedNode → Act NodeState Bool
    unfolding settle
    process_indexed_node ko lookup_failed s = settle ko forgotten s
    process_indexed_node ko absent s = settle ko forgotten s
    process_indexed_node ko not_node s = settle ko forgotten s
    process_indexed_node ko (found node) s = export_and_look ko (some node) s

    unfoldable pub process_node_item : Operation → KeyOp → Act NodeState Bool
    process_node_item add_op ko s = process_indexed_node ko (index ko.key) s
    process_node_item update_op ko s = process_indexed_node ko (index ko.key) s
    process_node_item delete_op ko s = export_and_look ko none s

    -- false when the queue is shut down
    unfoldable pub process_got_node : Option KeyOp → Act NodeState Bool
    process_got_node none s = (ok false, s)
    process_got_node (some ko) s = process_node_item ko.operation ko s

    unfoldable pub process_next_node : Act NodeState Bool
    process_next_node s =
        let (item, q) = Q.get s.queue in process_got_node item (record s { queue = q })
