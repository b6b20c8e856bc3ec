-- ===== src/Leader.antt =====
-- pkg/leader/consul_leader_elector.go: asking who leads, waiting for a leader, and the loop of Run. The
-- Consul client and its lock are parameters; metrics and logs are left out.
pub mod Terms
pub mod Wait
pub mod Stopping
pub mod Start
mod Examples
use kube_service_exporter.Base.{
  ℕ, ◌≡◌, Bool, true, false, not, ◌&&◌, ◌||◌, Option, none, some, List, [], ◌∷◌, ◌++◌, ltb, ◌==◌,
  if◌then◌else◌, Text, codes, is_empty,
}
use kube_service_exporter.Go.Run.{Run, ok, err, panic, no_leader, kv_get}
use kube_service_exporter.Go.Act.{Act, pure, attempt, ◌>>=◌}

-- leaderKey
unfoldable pub leader_key : Text → Text → Text
leader_key prefix cluster_id = prefix ++ (codes "/leadership/" ++ (cluster_id ++ codes "-leader"))

-- a pair of the store is held by the session that it names
unfoldable pub is_held : Option Text → Bool
is_held none = false
is_held (some session) = not (is_empty session)

-- What the timers of WaitForLeader deliver. Others may have changed the world by then.
pub data Delivery (W : Type 0) : Type 0 where
  tick timeout : (W → W) → Delivery W

module _ {W : Type 0} (get_session : Text → W → Option (Option Text) × W) (key : Text) where
  -- HasLeader
  unfoldable pub has_leader : Act W Bool
  has_leader = do session ← attempt kv_get (get_session key); pure (is_held session)

  -- the answer of HasLeader, with its error ignored
  unfoldable pub says_yes : Run Bool → Bool
  says_yes (ok b) = b
  says_yes (err e) = false
  says_yes panic = false

  -- the loop of WaitForLeader: `none` where it blocks since neither timer delivers anything more
  unfoldable pub wait_loop : List (Delivery W) → W → Option (Run (Unit {0})) × W
  wait_loop [] w = (none, w)
  wait_loop (timeout others ∷ more) w = (some (err no_leader), others w)
  wait_loop (tick others ∷ more) w =
      let (r, w') = has_leader (others w) in
      let go_on : W → Option (Run (Unit {0})) × W = wait_loop more in
      if says_yes r then (some (ok tt), w') else go_on w'

-- What time.NewTimer delivers: one event, when its duration is over. Of two such timers the shorter one is
-- first; where both are over at once, select may take either.
unfoldable pub one_shots : {W : Type 0} → Bool → ℕ → ℕ → (W → W) → (W → W) → List (Delivery W)
one_shots tick_first wait every at_tick at_timeout =
    if ltb every wait || (every == wait && tick_first)
    then tick at_tick ∷ timeout at_timeout ∷ []
    else timeout at_timeout ∷ tick at_tick ∷ []

-- WaitForLeader with its two durations
module _ {W : Type 0} (get_session : Text → W → Option (Option Text) × W) (key : Text) where
  unfoldable pub wait_for_leader :
      Bool → ℕ → ℕ → (W → W) → (W → W) → W → Option (Run (Unit {0})) × W
  unfolding wait_loop one_shots
  wait_for_leader tick_first wait every at_tick at_timeout w =
      wait_loop get_session key (one_shots tick_first wait every at_tick at_timeout) w

-- where Run stands: in lock.Lock, in the select behind it, or at its end
pub data Phase : Type 0 where
  locking leading returned : Phase

-- `granted` is not a field of the code: the lock was granted for the term that runs
pub record Elector : Type 0 where
  pub phase : Phase
  pub is_leader : Bool
  pub stopping : Bool
  pub granted : Bool

unfoldable pub new_elector : Elector
new_elector = record { phase = locking; is_leader = false; stopping = false; granted = false }

-- setIsLeader
abbrev pub set_is_leader : Bool → Elector → Elector
set_is_leader val e = record e { is_leader = val }

-- what Run does behind lock.Lock, which returned because the lock was granted, or not
unfoldable pub begin_term : Bool → Elector → Elector
begin_term grant e = set_is_leader true (record e { phase = leading; granted = grant })

-- stepDown, with where Run goes on
unfoldable pub step_down : Phase → Elector → Elector
step_down next e = set_is_leader false (record e { phase = next; granted = false })

pub data Step (e : Elector) : Elector → Type 0 where
  -- Stop closes stopC
  stop : Step e (record e { stopping = true })
  -- Lock fails, and the loop goes on
  refused : e.phase ≡ locking → Step e e
  locked : e.phase ≡ locking → Step e (begin_term true e)
  -- Lock gives up since stopC is closed: it returns no channel and no error
  aborted : e.phase ≡ locking → e.stopping ≡ true → Step e (begin_term false e)
  -- the lock's channel is closed
  lost : e.phase ≡ leading → e.granted ≡ true → Step e (step_down locking e)
  stopped : e.phase ≡ leading → e.stopping ≡ true → Step e (step_down returned e)

pub data Reachable : Elector → Type 0 where
  started : Reachable new_elector
  next : {e e' : Elector} → Reachable e → Step e e' → Reachable e'
