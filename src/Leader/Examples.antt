-- ===== src/Leader/Examples.antt =====
-- The elector at work: its theorems at concrete inputs.
use kube_service_exporter.Base.{◌≡◌, refl, true, false, Option, none, some, Text, codes}
use kube_service_exporter.Go.Run.{err, no_leader}
use kube_service_exporter.Leader.{
  new_elector, begin_term, leader_key, wait_for_leader, locked, aborted, stop, Reachable, started,
  next,
}
use kube_service_exporter.Leader.Terms.{Consistent, Reachable-Consistent}
use kube_service_exporter.Leader.Stopping.{CanEnd, Reachable-CanEnd}
use kube_service_exporter.Leader.Wait.{wait_for_leader-once}

Reachable-Consistent_example : Consistent (begin_term true new_elector)
unfolding new_elector
Reachable-Consistent_example =
    Reachable-Consistent (begin_term true new_elector) (next started (locked refl))

-- Stop while Run waits for the lock begins a term without it
aborted_term : Reachable (begin_term false (record new_elector { stopping = true }))
unfolding new_elector
aborted_term = next (next started stop) (aborted refl refl)

Reachable-CanEnd_example : CanEnd 2 (begin_term false (record new_elector { stopping = true }))
unfolding new_elector begin_term
Reachable-CanEnd_example =
    Reachable-CanEnd (begin_term false (record new_elector { stopping = true })) aborted_term refl

-- the store holds the session of one key
abbrev session_of : Text → Option Text → Option (Option Text) × Option Text
session_of key session = (some session, session)

-- a leader is elected after the tick, and not seen
wait_for_leader-once_example :
    (wait_for_leader session_of
      (leader_key (codes "kse") (codes "c1"))
      true
      30
      10
      (λ w. w)
      (λ w. some (codes "s1"))
      none).0
    ≡ some (err no_leader)
wait_for_leader-once_example =
    wait_for_leader-once session_of (leader_key (codes "kse") (codes "c1")) true 30 10 (λ w. w)
      (λ w. some (codes "s1")) none
