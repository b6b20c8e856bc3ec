-- ===== src/NodeWatcher/Turns.antt =====
-- What a turn of the node watcher does to the queue and to the target, and when it panics.
use kube_service_exporter.Base.{
  ℕ, ◌≡◌, refl, sym, ap, ◌∙◌, Bool, true, Option, none, some, List, [], ltb, if◌then◌else◌, Text,
}
use kube_service_exporter.Go.Run.{Run, ok, err, panic}
use kube_service_exporter.Kube.{Node}
use kube_service_exporter.Util.{should_include}
use kube_service_exporter.ExportTarget.{ExportTarget}
use kube_service_exporter.ServiceWatcher.{Operation, add_op, update_op, delete_op, KeyOp}
use kube_service_exporter.NodeWatcher.{select, write_selected, export_nodes}
use kube_service_exporter.NodeWatcher.Select.{
  meets_bad, first_enough, last_some, chosen, nodes_of, select-chosen,
}
use kube_service_exporter.NodeWatcher.Process.{
  WorkQueue, IndexedNode, lookup_failed, absent, not_node, found, Verdict, forgotten, panicked,
  again_after, NodeState, settle, look_again, verdict_of, keep_selector, export_and_look,
  process_indexed_node, process_node_item, process_got_node, process_next_node,
}

-- the node that a turn is about, if it comes to that: none for a deletion
abbrev pub subject : Operation → IndexedNode → Option (Option Node)
subject delete_op i = some none
subject add_op (found node) = some (some node)
subject update_op (found node) = some (some node)
subject add_op _ = none
subject update_op _ = none

module _ (parse_time : Text → Option ℕ) (now : ℕ) where
  -- Behind a choice of nodes, the item is forgotten, or queued again for when the node's grace period is
  -- over. The turn panics where the choice does, and for a deletion.
  abbrev pub verdict_on : Run (List Node) → Option (Option Node) → Verdict
  verdict_on choice none = forgotten
  verdict_on panic (some target) = panicked
  verdict_on choice (some none) = panicked
  verdict_on choice (some (some node)) =
      if ltb 0 (should_include parse_time now node).1
      then again_after (should_include parse_time now node).1
      else forgotten

module _ (T : ExportTarget) (Q : WorkQueue) where
  abbrev pub settled : KeyOp → Verdict → Q.Pending → Run Bool × Q.Pending
  settled ko forgotten q = (ok true, Q.done ko (Q.forget ko q))
  settled ko (again_after t) q = (ok true, Q.done ko (Q.add_after ko t q))
  settled ko panicked q = (panic, Q.done ko q)

  -- the chosen nodes are written whenever a turn comes to exportNodes
  abbrev pub world_after : Option (Option Node) → Run (List Node) → T.World → T.World
  world_after (some target) (ok nodes) w = (T.write_nodes nodes w).1
  world_after _ _ w = w

  settle-settled :
      (ko : KeyOp) (v : Verdict) (s : NodeState T Q)
      → ((settle T Q ko v s).0, (settle T Q ko v s).1.queue) ≡ settled ko v s.queue
  unfolding settle
  settle-settled ko forgotten s = refl
  settle-settled ko (again_after t) s = refl
  settle-settled ko panicked s = refl

  world-settle :
      (ko : KeyOp) (v : Verdict) (s : NodeState T Q) → (settle T Q ko v s).1.world ≡ s.world
  unfolding settle
  world-settle ko forgotten s = refl
  world-settle ko (again_after t) s = refl
  world-settle ko panicked s = refl

  -- what exportNodes returns and leaves, for what its loop has found
  abbrev selector_of : Run (List Node × Text) → Run Text
  selector_of (ok (nodes, selector)) = ok selector
  selector_of (err e) = err e
  selector_of panic = panic

  -- the state that an item is settled in
  abbrev state_after : Option (Option Node) → Run (List Node × Text) → NodeState T Q → NodeState T Q
  state_after none r s = s
  state_after (some target) r s =
      keep_selector T Q (selector_of r)
        (record s { world = world_after (some target) (nodes_of r) s.world })

  queue-keep_selector : (r : Run Text) (s : NodeState T Q) → (keep_selector T Q r s).queue ≡ s.queue
  unfolding keep_selector
  queue-keep_selector (ok selector) s = refl
  queue-keep_selector (err e) s = refl
  queue-keep_selector panic s = refl

  world-keep_selector : (r : Run Text) (s : NodeState T Q) → (keep_selector T Q r s).world ≡ s.world
  unfolding keep_selector
  world-keep_selector (ok selector) s = refl
  world-keep_selector (err e) s = refl
  world-keep_selector panic s = refl

  queue-state_after :
      (o : Option (Option Node)) (r : Run (List Node × Text)) (s : NodeState T Q)
      → (state_after o r s).queue ≡ s.queue
  queue-state_after none r s = refl
  queue-state_after (some target) r s = queue-keep_selector (selector_of r) _

  world-state_after :
      (o : Option (Option Node)) (r : Run (List Node × Text)) (s : NodeState T Q)
      → (state_after o r s).world ≡ world_after o (nodes_of r) s.world
  world-state_after none r s = refl
  world-state_after (some target) r s = world-keep_selector (selector_of r) _

  module _ (calm : (nodes : List Node) (w : T.World) → ¬ ((T.write_nodes nodes w).0 ≡ panic)) where
    write_selected-calm :
        (target : Option Node) (r : Run (List Node × Text)) (w : T.World)
        → write_selected T r w ≡ (selector_of r, world_after (some target) (nodes_of r) w)
    unfolding write_selected
    write_selected-calm target (err e) w = refl
    write_selected-calm target panic w = refl
    write_selected-calm target (ok (nodes, selector)) w = go (T.write_nodes nodes w).0 refl
      where
        go :
            (r : Run (Unit {0}))
            → (T.write_nodes nodes w).0 ≡ r
            → write_selected T (ok (nodes, selector)) w ≡ (ok selector, (T.write_nodes nodes w).1)
        go (ok u) e = unfold write_selected in rw e refl
        go (err x) e = unfold write_selected in rw e refl
        go panic e = absurd (calm nodes w e)

    module _ (parse_time : Text → Option ℕ) (now : ℕ) (list : Text → Option (List Node))
        (min_count : ℕ) (selectors : List Text) (index : Text → IndexedNode) where
      abbrev loop : Run (List Node × Text)
      loop = select parse_time now list min_count selectors ([], [])

      -- the nodes that exportNodes comes to, unless it panics
      abbrev pub choice : Run (List Node)
      choice =
          if meets_bad parse_time now list min_count selectors
          then panic
          else ok (
              chosen parse_time now list min_count
                (first_enough parse_time now list min_count selectors)
                (last_some parse_time now list min_count selectors) [])

      verdict_of-verdict_on :
          (r : Run (List Node × Text)) (node : Option Node)
          → verdict_of parse_time now (selector_of r) node
            ≡ verdict_on parse_time now (nodes_of r) (some node)
      unfolding verdict_of look_again
      verdict_of-verdict_on (ok (nodes, s)) none = refl
      verdict_of-verdict_on (ok (nodes, s)) (some n) = refl
      verdict_of-verdict_on (err e) none = refl
      verdict_of-verdict_on (err e) (some n) = refl
      verdict_of-verdict_on panic none = refl
      verdict_of-verdict_on panic (some n) = refl

      abbrev verdict : Option (Option Node) → Verdict
      verdict o = verdict_on parse_time now (nodes_of loop) o

      -- a turn that comes to exportNodes
      turn :
          (ko : KeyOp) (node : Option Node) (s : NodeState T Q)
          → export_and_look T Q parse_time now list min_count selectors index ko node s
            ≡ settle T Q ko (verdict (some node)) (state_after (some node) loop s)
      unfolding export_and_look export_nodes
      turn ko node s =
          rw (write_selected-calm node loop s.world, verdict_of-verdict_on loop node) refl

      turn-indexed :
          (ko : KeyOp) (i : IndexedNode) (s : NodeState T Q)
          → process_indexed_node T Q parse_time now list min_count selectors index ko i s
            ≡ settle T Q ko (verdict (subject add_op i)) (state_after (subject add_op i) loop s)
      unfolding process_indexed_node
      turn-indexed ko lookup_failed s = refl
      turn-indexed ko absent s = refl
      turn-indexed ko not_node s = refl
      turn-indexed ko (found node) s = turn ko (some node) s

      same_subject : (i : IndexedNode) → subject add_op i ≡ subject update_op i
      same_subject lookup_failed = refl
      same_subject absent = refl
      same_subject not_node = refl
      same_subject (found node) = refl

      turn-item :
          (op : Operation) (ko : KeyOp) (s : NodeState T Q)
          → process_node_item T Q parse_time now list min_count selectors index op ko s
            ≡ settle T Q ko
                (verdict (subject op (index ko.key)))
                (state_after (subject op (index ko.key)) loop s)
      unfolding process_node_item
      turn-item add_op ko s = turn-indexed ko (index ko.key) s
      turn-item update_op ko s =
          rw (sym (same_subject (index ko.key))) (turn-indexed ko (index ko.key) s)
      turn-item delete_op ko s = turn ko none s

      turn-next :
          (s : NodeState T Q) (ko : KeyOp)
          → (Q.get s.queue).0 ≡ some ko
          → process_next_node T Q parse_time now list min_count selectors index s
            ≡ settle T Q ko (verdict (subject ko.operation (index ko.key))) (
                state_after
                  (subject ko.operation (index ko.key))
                  loop
                  (record s { queue = (Q.get s.queue).1 }))
      unfolding process_next_node process_got_node
      turn-next s ko item =
          rw item (turn-item ko.operation ko (record s { queue = (Q.get s.queue).1 }))

      -- On a target whose WriteNodes does not panic, a turn of processNextItem for an item takes it off
      -- the queue. Unless it adds or updates a node that the index does not have, it comes to exportNodes.
      -- Then it panics and writes nothing where a selector that does not parse comes before every
      -- selector that has more than the minimum of nodes; else it writes the chosen nodes to the target,
      -- whether or not the target refuses them. A node in its grace period is queued again for when that
      -- is over; for a deletion the turn panics; any other item is forgotten. Done is called in each
      -- case.
      pub process_next_node-turn :
          (s : NodeState T Q) (ko : KeyOp)
          → (Q.get s.queue).0 ≡ some ko
          → ((
            (process_next_node T Q parse_time now list min_count selectors index s).0,
            (process_next_node T Q parse_time now list min_count selectors index s).1.queue,
          )
              ≡ settled ko
                  (verdict_on parse_time now choice (subject ko.operation (index ko.key)))
                  (Q.get s.queue).1)
            × ((process_next_node T Q parse_time now list min_count selectors index s).1.world
                ≡ world_after (subject ko.operation (index ko.key)) choice s.world)
      process_next_node-turn s ko item =
          let who = subject ko.operation (index ko.key) in
          let s₀ : NodeState T Q = record s { queue = (Q.get s.queue).1 } in
          let s' = state_after who loop s₀ in
          rw (turn-next s ko item, sym (select-chosen parse_time now list min_count selectors))
            (
              settle-settled ko (verdict who) s'
                  ∙ ap (settled ko (verdict who)) (queue-state_after who loop s₀),
              world-settle ko (verdict who) s' ∙ world-state_after who loop s₀,
            )
