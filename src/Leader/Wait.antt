-- ===== src/Leader/Wait.antt =====
-- What WaitForLeader can see of a leader.
use kube_service_exporter.Base.{
  ℕ, ◌≡◌, refl, inl, inr, Bool, false, not, ◌&&◌, ◌||◌, Option, none, some, ltb, ◌==◌,
  if◌then◌else◌, Bool-cases, Text, is_empty,
}
use kube_service_exporter.Go.Run.{Run, ok, err, no_leader}
use kube_service_exporter.Leader.{
  is_held, has_leader, says_yes, wait_loop, one_shots, wait_for_leader,
}

module _ {W : Type 0} (get_session : Text → W → Option (Option Text) × W) (key : Text) where
  -- the store names a session for the leader's key, as far as a read finds out
  abbrev pub sees_leader : Option (Option Text) → Bool
  sees_leader none = false
  sees_leader (some none) = false
  sees_leader (some (some session)) = not (is_empty session)

  says_yes-has_leader :
      (w : W)
      → says_yes get_session key (has_leader get_session key w).0
        ≡ sees_leader (get_session key w).0
  unfolding has_leader says_yes is_held
  says_yes-has_leader w = go (get_session key w).0 refl
    where
      go :
          (o : Option (Option Text))
          → (get_session key w).0 ≡ o
          → says_yes get_session key (has_leader get_session key w).0
            ≡ sees_leader (get_session key w).0
      go none e = unfold has_leader says_yes is_held in rw e refl
      go (some none) e = unfold has_leader says_yes is_held in rw e refl
      go (some (some session)) e = unfold has_leader says_yes is_held in rw e refl

  -- what a single look at the leader's key makes of WaitForLeader
  abbrev pub looked_at : Option (Option Text) → Option (Run (Unit {0}))
  looked_at o = if sees_leader o then some (ok tt) else some (err no_leader)

  -- WaitForLeader looks at most once, however often `every` goes into `wait`. If `every` is the shorter
  -- duration it returns without an error exactly if a leader can be seen when `every` is over,
  -- whatever others do between then and the time-out. If it is the longer one, it does not look at all
  -- and returns the error that there is no leader. So it does where both are equal, or it looks once.
  -- It always returns.
  pub wait_for_leader-once :
      (tick_first : Bool) (wait every : ℕ) (before after : W → W) (w : W)
      → (wait_for_leader get_session key tick_first wait every before after w).0 ≡ (
          if ltb every wait || (every == wait && tick_first)
          then looked_at (get_session key (before w)).0
          else some (err no_leader))
  unfolding wait_for_leader wait_loop one_shots
  wait_for_leader-once tick_first wait every before after w =
      elim (Bool-cases (ltb every wait || (every == wait && tick_first))) [
        | inr never_looks ↦ rw never_looks refl
        | inl looks ↦ elim (Bool-cases (sees_leader (get_session key (before w)).0)) [
          | inl seen ↦ rw (looks, says_yes-has_leader (before w), seen) refl
          | inr unseen ↦ rw (looks, says_yes-has_leader (before w), unseen) refl
        ]
      ]
