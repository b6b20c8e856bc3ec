-- ===== src/Queue/Spec.antt =====
-- What the queue promises, with no heap in it: which values wait and with what priority, and how often
-- each has failed.
use kube_service_exporter.Base.{
  ℕ, ◌+◌, ◌≡◌, Bool, false, Option, none, some, List, [], ◌∷◌, if◌then◌else◌,
}

module _ (V P : Type 0) where
  pub record Requests : Type 0 where
    pub waiting : V → Option P
    pub failures : V → ℕ

  -- the calls that change the queue
  pub data Call : Type 0 where
    add_call : V → P → Call
    get_call : Call
    forget_call failed_call : V → Call

module _ {V P : Type 0} (same : V → V → Bool) where
  unfoldable pub spec_new : Requests V P
  spec_new = record { waiting = λ v. none; failures = λ v. 0 }

  -- what waits already keeps its priority
  abbrev pub earlier : P → Option P → Option P
  earlier x none = some x
  earlier x (some y) = some y

  unfoldable pub spec_add : V → P → Requests V P → Requests V P
  spec_add v x s = record s {
    waiting = λ w. if same v w then earlier x (s.waiting v) else s.waiting w;
  }

  -- `v` waits no longer
  unfoldable pub spec_take : V → Requests V P → Requests V P
  spec_take v s = record s { waiting = λ w. if same v w then none else s.waiting w }

  abbrev forgotten_if : V → Option P → Requests V P → Requests V P
  unfolding spec_take
  forgotten_if v none s = s
  forgotten_if v (some x) s = record (spec_take v s) {
    failures = λ w. if same v w then 0 else s.failures w;
  }

  -- what does not wait is not forgotten
  unfoldable pub spec_forget : V → Requests V P → Requests V P
  unfolding spec_take
  spec_forget v s = forgotten_if v (s.waiting v) s

  unfoldable pub spec_failed : V → Requests V P → Requests V P
  spec_failed v s = record s { failures = λ w. if same v w then s.failures v + 1 else s.failures w }

  module _ (lt : P → P → Bool) where
    -- no value waits with a lower priority
    pub record IsFirst (v : V) (s : Requests V P) : Type 0 where
      pub priority : P
      pub waits : s.waiting v ≡ some priority
      pub least : (w : V) (y : P) → s.waiting w ≡ some y → lt y priority ≡ false

    -- a call, its answer, and the state that it leaves
    pub data Step : Requests V P → Call V P → Option V → Requests V P → Type 0 where
      added : {s : Requests V P} (v : V) (x : P) → Step s (add_call v x) none (spec_add v x s)
      forgotten : {s : Requests V P} (v : V) → Step s (forget_call v) none (spec_forget v s)
      failed_once : {s : Requests V P} (v : V) → Step s (failed_call v) none (spec_failed v s)
      empty : {s : Requests V P} → ((v : V) → s.waiting v ≡ none) → Step s get_call none s
      taken : {s : Requests V P} (v : V) → IsFirst v s → Step s get_call (some v) (spec_take v s)

    -- the calls one after the other
    pub data Steps : Requests V P → List (Call V P) → List (Option V) → Requests V P → Type 0 where
      done : {s : Requests V P} → Steps s [] [] s
      step :
          {s t u : Requests V P} {c : Call V P} {calls : List (Call V P)} {a : Option V}
          {answers : List (Option V)}
          → Step s c a t
          → Steps t calls answers u
          → Steps s (c ∷ calls) (a ∷ answers) u
