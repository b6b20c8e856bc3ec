-- ===== src/Leader/Terms.antt =====
-- What IsLeader says while Run goes through its terms.
use kube_service_exporter.Base.{◌≡◌, refl, ◌⊎◌, inl, inr, Bool, true, false}
use kube_service_exporter.Leader.{
  Phase, locking, leading, returned, Elector, new_elector, begin_term, step_down, Step, stop,
  refused, locked, aborted, lost, stopped, Reachable, started, next,
}

abbrev pub is_leading : Phase → Bool
is_leading locking = false
is_leading leading = true
is_leading returned = false

-- IsLeader says yes exactly in a term, and a term has the lock unless Stop was called
pub record Consistent (e : Elector) : Type 0 where
  pub leads : e.is_leader ≡ is_leading e.phase
  pub granted_or_stopping : e.is_leader ≡ true → (e.granted ≡ true) ⊎ (e.stopping ≡ true)

Step-Consistent : {e e' : Elector} → Step e e' → Consistent e → Consistent e'
unfolding begin_term step_down
Step-Consistent stop c = record { leads = c.leads; granted_or_stopping = λ h. inr refl }
Step-Consistent (refused p) c = c
Step-Consistent (locked p) c = record { leads = refl; granted_or_stopping = λ h. inl refl }
Step-Consistent (aborted p s) c = record { leads = refl; granted_or_stopping = λ h. inr s }
Step-Consistent (lost p g) c = record { leads = refl; granted_or_stopping = λ h. cc }
Step-Consistent (stopped p s) c = record { leads = refl; granted_or_stopping = λ h. cc }

-- In every state that Run can reach, IsLeader says yes exactly while Run is in the select behind
-- lock.Lock, never before it and never after Run has returned; and when it says yes, either the lock was
-- granted for this term or Stop has been called.
pub Reachable-Consistent : (e : Elector) → Reachable e → Consistent e
unfolding new_elector
Reachable-Consistent _ started = record { leads = refl; granted_or_stopping = λ h. cc }
Reachable-Consistent _ (next r s) = Step-Consistent s (Reachable-Consistent _ r)
