-- ===== src/Leader/Stopping.antt =====
-- Run can always come to its end.
use kube_service_exporter.Base.{ℕ, suc, ◌≡◌, refl, ap, ◌∙◌, true, false}
use kube_service_exporter.Leader.{
  Phase, locking, leading, returned, Elector, begin_term, step_down, Step, aborted, stopped,
  Reachable,
}
use kube_service_exporter.Leader.Terms.{is_leading, Reachable-Consistent}

-- so many steps lead from one state to another
pub data Within : ℕ → Elector → Elector → Type 0 where
  arrived : {n : ℕ} {e : Elector} → Within n e e
  further : {n : ℕ} {e e' e'' : Elector} → Step e e' → Within n e' e'' → Within (suc n) e e''

-- a state in which Run has returned and IsLeader says no
pub record Over (e : Elector) : Type 0 where
  pub returned_at : e.phase ≡ returned
  pub no_leader : e.is_leader ≡ false

-- a way to the end, in at most so many steps
abbrev pub CanEnd : ℕ → Elector → Type 0
CanEnd n e = (e' : Elector) × Within n e e' × Over e'

leading-CanEnd : (n : ℕ) (e : Elector) → e.phase ≡ leading → e.stopping ≡ true → CanEnd (suc n) e
unfolding step_down
leading-CanEnd n e p s = (
  step_down returned e,
  further (stopped p s) arrived,
  record { returned_at = refl; no_leader = refl },
)

locking-CanEnd : (e : Elector) → e.phase ≡ locking → e.stopping ≡ true → CanEnd 2 e
unfolding begin_term
locking-CanEnd e p s =
    let (e', path, over) = leading-CanEnd 0 (begin_term false e) refl s in
    (e', further (aborted p s) path, over)

-- Once Stop has been called, Run can come to its end from every state that it can reach: it has returned,
-- or at most two steps of its own lead to where it has, and then IsLeader says no.
pub Reachable-CanEnd : (e : Elector) → Reachable e → e.stopping ≡ true → CanEnd 2 e
Reachable-CanEnd e r s = go e.phase refl
  where
    go : (p : Phase) → e.phase ≡ p → CanEnd 2 e
    go locking h = locking-CanEnd e h s
    go leading h = leading-CanEnd 1 e h s
    go returned h = (
      e,
      arrived,
      record { returned_at = h; no_leader = (Reachable-Consistent e r).leads ∙ ap is_leading h },
    )
