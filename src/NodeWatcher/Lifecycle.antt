-- ===== src/NodeWatcher/Lifecycle.antt =====
-- Run and Stop of the node watcher. Only the informer's goroutine is counted by the wait group. Get of the work
-- queue waits for an item, and returns nothing once the queue is shut down and empty.
use kube_service_exporter.Base.{
  ℕ, suc, ◌+◌, ◌≤◌, ◌≡◌, refl, sym, ◌∙◌, Bool, true, false, arith, if◌then◌else◌,
}

-- where Run stands: not yet begun, waiting for the caches, at the test of wait.Until, in Get, at work on an
-- item, or at its end
pub data NodePhase : Type 0 where
  starting syncing at_until getting at_work ended : NodePhase

pub record NodeLifecycle : Type 0 where
  pub phase : NodePhase
  -- the informer's goroutine runs
  pub informing : Bool
  -- the items in the work queue
  pub waiting : ℕ
  -- stopC is closed
  pub stopping : Bool
  pub shut_down : Bool
  -- Stop has returned
  pub stop_returned : Bool

unfoldable pub new_node_lifecycle : NodeLifecycle
new_node_lifecycle = record {
  phase = starting;
  informing = false;
  waiting = 0;
  stopping = false;
  shut_down = false;
  stop_returned = false;
}

-- the counter of the wait group, for which Stop waits
unfoldable pub node_wait_group : NodeLifecycle → ℕ
node_wait_group w = if w.informing then 1 else 0

pub data NodeStep (w : NodeLifecycle) : NodeLifecycle → Type 0 where
  begin : w.phase ≡ starting → NodeStep w (record w { phase = syncing; informing = true })
  synced : w.phase ≡ syncing → NodeStep w (record w { phase = at_until })
  not_synced : w.phase ≡ syncing → w.stopping ≡ true → NodeStep w (record w { phase = ended })
  enter : w.phase ≡ at_until → w.stopping ≡ false → NodeStep w (record w { phase = getting })
  leave : w.phase ≡ at_until → w.stopping ≡ true → NodeStep w (record w { phase = ended })
  take :
      (n : ℕ)
      → w.phase ≡ getting
      → w.waiting ≡ suc n
      → NodeStep w (record w { phase = at_work; waiting = n })
  -- the item is forgotten, or comes back later
  finish : w.phase ≡ at_work → NodeStep w (record w { phase = getting })
  -- Get reports the shutdown
  no_more :
      w.phase ≡ getting
      → w.waiting ≡ 0
      → w.shut_down ≡ true
      → NodeStep w (record w { phase = at_until })
  -- an event, or an item whose delay is over; a queue that is shut down takes none
  arrive : w.shut_down ≡ false → NodeStep w (record w { waiting = w.waiting + 1 })
  informer_ends :
      w.informing ≡ true → w.stopping ≡ true → NodeStep w (record w { informing = false })
  -- Stop closes stopC, shuts the queue down, and returns once the wait group is at 0
  stop : NodeStep w (record w { stopping = true })
  stop_queue : w.stopping ≡ true → NodeStep w (record w { shut_down = true })
  stop_returns :
      w.shut_down ≡ true → node_wait_group w ≡ 0 → NodeStep w (record w { stop_returned = true })

pub data NodeSteps : NodeLifecycle → NodeLifecycle → Type 0 where
  there : {w : NodeLifecycle} → NodeSteps w w
  then_step : {w w' w'' : NodeLifecycle} → NodeStep w w' → NodeSteps w' w'' → NodeSteps w w''

-- Stop has come to its wait
abbrev pub Stopped : NodeLifecycle → Type 0
Stopped w = (w.stopping ≡ true) × (w.shut_down ≡ true)

-- Once Stop has shut the queue down it stays so, and no step adds an item.
pub NodeStep-Stopped :
    (w w' : NodeLifecycle) → Stopped w → NodeStep w w' → Stopped w' × (w'.waiting ≤ w.waiting)
NodeStep-Stopped w _ s (begin p) = (s, omega arith)
NodeStep-Stopped w _ s (synced p) = (s, omega arith)
NodeStep-Stopped w _ s (not_synced p h) = (s, omega arith)
NodeStep-Stopped w _ s (enter p h) = (s, omega arith)
NodeStep-Stopped w _ s (leave p h) = (s, omega arith)
NodeStep-Stopped w _ s (take n p e) = (s, omega arith)
NodeStep-Stopped w _ s (finish p) = (s, omega arith)
NodeStep-Stopped w _ s (no_more p e h) = (s, omega arith)
NodeStep-Stopped w _ s (arrive accepting) = absurd (open_shut (sym s.1 ∙ accepting))
  where
    open_shut : true ≡ false → ⊥
    open_shut e = cc
NodeStep-Stopped w _ s (informer_ends p h) = (s, omega arith)
NodeStep-Stopped w _ s stop = ((refl, s.1), omega arith)
NodeStep-Stopped w _ s (stop_queue p) = ((s.0, refl), omega arith)
NodeStep-Stopped w _ s (stop_returns p h) = (s, omega arith)

-- While Run works on an item, Stop can return as soon as the queue is shut down and the informer has ended: it
-- does not wait for the work.
pub at_work_after_stop :
    (w : NodeLifecycle)
    → w.phase ≡ at_work
    → w.shut_down ≡ true
    → w.informing ≡ false
    → (w' : NodeLifecycle) × NodeSteps w w' × (w'.stop_returned ≡ true) × (w'.phase ≡ at_work)
unfolding node_wait_group
at_work_after_stop w p h i =
    (record w { stop_returned = true }, then_step (stop_returns h (rw i refl)) there, refl, p)
