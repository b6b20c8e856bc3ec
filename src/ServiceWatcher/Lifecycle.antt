-- ===== src/ServiceWatcher/Lifecycle.antt =====
-- Run and Stop of the service watcher, which share a channel and a wait group: the informer's goroutine and
-- the handlers are counted by the wait group, the loop that calls the handlers is not. An item is an event
-- that waits in the queue.
use kube_service_exporter.Base.{
  ℕ, zero, suc, ◌+◌, ◌*◌, ◌≤◌, ◌≡◌, refl, sym, Bool, true, false, arith, if◌then◌else◌,
}

-- where Run stands: not yet begun, waiting for the caches, at the test of wait.Until, between two items of
-- runWorker, in a handler, or at its end
pub data RunPhase : Type 0 where
  starting syncing at_until between handling ended : RunPhase

pub record Lifecycle : Type 0 where
  pub phase : RunPhase
  -- the informer's goroutine runs
  pub informing : Bool
  -- the events in the queue
  pub waiting : ℕ
  -- stopC is closed
  pub stopping : Bool
  -- Stop has returned
  pub stop_returned : Bool

unfoldable pub new_lifecycle : Lifecycle
new_lifecycle = record {
  phase = starting;
  informing = false;
  waiting = 0;
  stopping = false;
  stop_returned = false;
}

handlers : RunPhase → ℕ
handlers handling = 1
handlers _ = 0

-- the counter of the wait group
unfoldable pub wait_group : Lifecycle → ℕ
unfolding handlers
wait_group w = (if w.informing then 1 else 0) + handlers w.phase

none_runs : (p : RunPhase) → ¬ (p ≡ handling) → handlers p ≡ 0
unfolding handlers
none_runs starting f = refl
none_runs syncing f = refl
none_runs at_until f = refl
none_runs between f = refl
none_runs handling f = absurd (f refl)
none_runs ended f = refl

-- the wait group is at 0 when the informer has ended and no handler runs
pub wait_group-idle :
    (w : Lifecycle) → w.informing ≡ false → ¬ (w.phase ≡ handling) → wait_group w ≡ 0
unfolding wait_group
wait_group-idle w e free = rw (e, none_runs w.phase free) refl

pub data LifeStep (w : Lifecycle) : Lifecycle → Type 0 where
  begin : w.phase ≡ starting → LifeStep w (record w { phase = syncing; informing = true })
  synced : w.phase ≡ syncing → LifeStep w (record w { phase = at_until })
  -- WaitForCacheSync gives up
  not_synced : w.phase ≡ syncing → w.stopping ≡ true → LifeStep w (record w { phase = ended })
  -- wait.Until calls runWorker
  enter : w.phase ≡ at_until → w.stopping ≡ false → LifeStep w (record w { phase = between })
  leave : w.phase ≡ at_until → w.stopping ≡ true → LifeStep w (record w { phase = ended })
  -- processNextItem takes an item, and a handler begins
  take :
      (n : ℕ)
      → w.phase ≡ between
      → w.waiting ≡ suc n
      → LifeStep w (record w { phase = handling; waiting = n })
  -- processNextItem takes an item that comes to no handler
  pass_over :
      (n : ℕ) → w.phase ≡ between → w.waiting ≡ suc n → LifeStep w (record w { waiting = n })
  finish : w.phase ≡ handling → LifeStep w (record w { phase = between })
  -- the queue is empty
  drained : w.phase ≡ between → w.waiting ≡ 0 → LifeStep w (record w { phase = at_until })
  arrive : w.informing ≡ true → LifeStep w (record w { waiting = w.waiting + 1 })
  informer_ends :
      w.informing ≡ true → w.stopping ≡ true → LifeStep w (record w { informing = false })
  -- Stop closes stopC, and returns once the wait group is at 0
  stop : LifeStep w (record w { stopping = true })
  stop_returns :
      w.stopping ≡ true → wait_group w ≡ 0 → LifeStep w (record w { stop_returned = true })

-- so many steps lead from one state to another
pub data Leads : ℕ → Lifecycle → Lifecycle → Type 0 where
  there : {w : Lifecycle} → Leads 0 w w
  then_step : {n : ℕ} {w w' w'' : Lifecycle} → LifeStep w w' → Leads n w' w'' → Leads (suc n) w w''

abbrev pub CanEndWithin : ℕ → Lifecycle → Type 0
CanEndWithin n w = (k : ℕ) × (k ≤ n) × (w' : Lifecycle) × Leads k w w' × (w'.phase ≡ ended)

one_more : (n : ℕ) (w w' : Lifecycle) → LifeStep w w' → CanEndWithin n w' → CanEndWithin (suc n) w
one_more n w w' s (k, small, w'', path, end) = (suc k, omega arith, w'', then_step s path, end)

widen : (m n : ℕ) (w : Lifecycle) → m ≤ n → CanEndWithin m w → CanEndWithin n w
widen m n w h (k, small, w', path, end) = (k, omega arith, w', path, end)

-- the last step
last_step :
    (n : ℕ) (w : Lifecycle) → LifeStep w (record w { phase = ended }) → CanEndWithin (suc n) w
last_step n w s = (1, omega arith, record w { phase = ended }, then_step s there, refl)

-- the items that wait are all handled first
between-CanEndWithin :
    (n : ℕ) (w : Lifecycle)
    → w.waiting ≡ n
    → w.phase ≡ between
    → w.stopping ≡ true
    → CanEndWithin (2 * n + 2) w
between-CanEndWithin zero w e p s =
    let w' : Lifecycle = record w { phase = at_until } in
    one_more 1 w w' (drained p e) (last_step 0 w' (leave refl s))
between-CanEndWithin (suc n) w e p s =
    let w' : Lifecycle = record w { phase = handling; waiting = n } in
    let w'' : Lifecycle = record w { phase = between; waiting = n } in
    let rest : CanEndWithin (2 * n + 2) w'' = between-CanEndWithin n w'' refl refl s in
    widen (2 * n + 4) (2 * suc n + 2) w (omega arith) (
      widen (suc (suc (2 * n + 2))) (2 * n + 4) w (omega arith) (
        one_more (suc (2 * n + 2)) w w' (take n p e)
          (one_more (2 * n + 2) w' w'' (finish refl) rest)))

-- Once Stop has closed its channel, Run can come to its end from every state, in at most two steps for each
-- event that waits and three more: it handles the events that wait, however many they are.
pub stopping-CanEndWithin : (w : Lifecycle) → w.stopping ≡ true → CanEndWithin (2 * w.waiting + 3) w
stopping-CanEndWithin w s = go w.phase refl
  where
    go : (p : RunPhase) → w.phase ≡ p → CanEndWithin (2 * w.waiting + 3) w
    go starting h =
        let w' : Lifecycle = record w { phase = syncing; informing = true } in
        widen 2 (2 * w.waiting + 3) w (omega arith)
          (one_more 1 w w' (begin h) (last_step 0 w' (not_synced refl s)))
    go syncing h = widen 1 (2 * w.waiting + 3) w (omega arith) (last_step 0 w (not_synced h s))
    go at_until h = widen 1 (2 * w.waiting + 3) w (omega arith) (last_step 0 w (leave h s))
    go between h =
        widen (2 * w.waiting + 2) (2 * w.waiting + 3) w (omega arith)
          (between-CanEndWithin w.waiting w refl h s)
    go handling h =
        let w' : Lifecycle = record w { phase = between } in
        widen (suc (2 * w.waiting + 2)) (2 * w.waiting + 3) w (omega arith) (
          one_more (2 * w.waiting + 2) w w' (finish h)
            (between-CanEndWithin w.waiting w' refl refl s))
    go ended h = (0, omega arith, w, there, h)

-- a run from one state to another
abbrev pub Reaches : Lifecycle → Lifecycle → Type 0
Reaches w w' = (k : ℕ) × Leads k w w'

-- one more step at the end
Reaches-step : (w w' w'' : Lifecycle) → Reaches w w' → LifeStep w' w'' → Reaches w w''
Reaches-step w w' w'' (k, path) s = (suc k, go path s)
  where
    go : {n : ℕ} {a b c : Lifecycle} → Leads n a b → LifeStep b c → Leads (suc n) a c
    go there t = then_step t there
    go (then_step u path) t = then_step u (go path t)

-- so many handlers begin and end, one after the other: each begins between two items, where none runs, and
-- ends before the next
pub data Handles : ℕ → Lifecycle → Lifecycle → Type 0 where
  none_left : {w : Lifecycle} → Handles 0 w w
  one_handled :
      {n : ℕ} {w w' w'' w3 : Lifecycle}
      → w.phase ≡ between
      → LifeStep w w'
      → w'.phase ≡ handling
      → LifeStep w' w''
      → w''.phase ≡ between
      → Handles n w'' w3
      → Handles (suc n) w w3

-- runWorker is between two items, and so many events wait
abbrev at_work : Bool → Bool → Bool → ℕ → Lifecycle
at_work informs stops returns n = record {
  phase = between;
  informing = informs;
  waiting = n;
  stopping = stops;
  stop_returned = returns;
}

arrivals : (n : ℕ) → Reaches new_lifecycle (at_work true false false n)
unfolding new_lifecycle
arrivals zero =
    (3, then_step (begin refl) (then_step (synced refl) (then_step (enter refl refl) there)))
arrivals (suc n) =
    let one : n + 1 ≡ suc n = omega arith in
    rw (sym one) (
      Reaches-step new_lifecycle (at_work true false false n) (at_work true false false (n + 1))
        (arrivals n) (arrive refl))

handles_all : (n : ℕ) → Handles n (at_work false true true n) (at_work false true true 0)
handles_all zero = none_left
handles_all (suc n) = one_handled refl (take n refl refl) refl (finish refl) refl (handles_all n)

-- For every number there is a run of the watcher from its start on in which Stop returns, and that many
-- handlers begin after it has returned.
pub handled_after_stop :
    (n : ℕ)
    → (w : Lifecycle) × Reaches new_lifecycle w
      × (w.stop_returned ≡ true)
      × ((w' : Lifecycle) × Handles n w w')
unfolding wait_group handlers
handled_after_stop n =
    let working = arrivals n in
    let stopped =
      Reaches-step new_lifecycle (at_work true false false n) (at_work true true false n) working
        stop in
    let alone =
      Reaches-step new_lifecycle (at_work true true false n) (at_work false true false n) stopped
        (informer_ends refl refl) in
    let over =
      Reaches-step new_lifecycle (at_work false true false n) (at_work false true true n) alone
        (stop_returns refl refl) in
    (at_work false true true n, over, refl, (at_work false true true 0, handles_all n))
