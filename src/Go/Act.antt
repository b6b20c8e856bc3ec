-- ===== src/Go/Act.antt =====
-- Calls that work on a state that the program shares with the world: what was changed before an error
-- stays changed. Two kinds of statements about them, with a rule for each way to build a call.
use kube_service_exporter.Base.{◌≡◌, refl, Bool, true, false, Option, none, some, if◌then◌else◌}
use kube_service_exporter.Go.Run.{Error, Run, ok, err, panic, or_else}

abbrev pub Act : Type 0 → Type 0 → Type 0
Act S A = S → Run A × S

module _ {S A : Type 0} where
  abbrev pub pure : A → Act S A
  pure a s = (ok a, s)

  abbrev pub raise : Error → Act S A
  raise e s = (err e, s)

  abbrev pub lift : Run A → Act S A
  lift r s = (r, s)

  -- a call into the world, with `none` for an error
  abbrev pub attempt : Error → (S → Option A × S) → Act S A
  attempt e m s = let (o, s') = m s in (or_else o (err e), s')

module _ {S A B : Type 0} where
  abbrev pub continue : Run A → (A → Act S B) → Act S B
  continue (ok a) f s = f a s
  continue (err e) f s = (err e, s)
  continue panic f s = (panic, s)

  infixl 5 ◌>>=◌ ◌>>◌
  abbrev pub ◌>>=◌ : Act S A → (A → Act S B) → Act S B
  ◌>>=◌ m f s = let (r, s') = m s in continue r f s'

  abbrev pub ◌>>◌ : Act S A → Act S B → Act S B
  m >> n = m >>= λ _. n

-- how a call ended: with a result and a state in `Q`, or with an error and a state in `E`; no panic
abbrev pub Post : {S A : Type 0} → (A → S → Type 0) → (S → Type 0) → Run A → S → Type 0
Post Q E (ok a) s = Q a s
Post Q E (err e) s = E s
Post Q E panic s = ⊥

-- a call that begins in `P` ends so
pub record Ends {S A : Type 0} (P : S → Type 0) (m : Act S A) (Q : A → S → Type 0) (E : S → Type 0)
    : Type 0 where
  pub at : (s : S) → P s → Post Q E (m s).0 (m s).1

module _ {S A : Type 0} {P : S → Type 0} {E : S → Type 0} where
  pub Ends-pure : {Q : A → S → Type 0} (a : A) → ((s : S) → P s → Q a s) → Ends P (pure a) Q E
  Ends-pure a h = record { at = h }

  pub Ends-raise : {Q : A → S → Type 0} (e : Error) → ((s : S) → P s → E s) → Ends P (raise e) Q E
  Ends-raise e h = record { at = h }

  pub Ends-if :
      {Q : A → S → Type 0} (b : Bool) {m n : Act S A}
      → (b ≡ true → Ends P m Q E)
      → (b ≡ false → Ends P n Q E)
      → Ends P (if b then m else n) Q E
  Ends-if true p q = p refl
  Ends-if false p q = q refl

  -- less is known before, and less is wanted after
  pub Ends-weaken :
      {P' : S → Type 0} {Q Q' : A → S → Type 0} {m : Act S A}
      → Ends P m Q E
      → ((s : S) → P' s → P s)
      → ((a : A) (s : S) → Q a s → Q' a s)
      → Ends P' m Q' E
  Ends-weaken {Q} {Q'} {m} h before after = record {
    at = λ s p. go (m s).0 (m s).1 (h.at s (before s p));
  }
    where
      go : (r : Run A) (s : S) → Post Q E r s → Post Q' E r s
      go (ok a) s q = after a s q
      go (err e) s q = q
      go panic s q = q

module _ {S A : Type 0} {P : S → Type 0} {E : S → Type 0} where
  -- a fact about the past may be named
  pub Ends-fact :
      {F : Type 0} {R : A → S → Type 0} {m : Act S A}
      → (F → Ends P m R E)
      → Ends (λ s. P s × F) m R E
  Ends-fact h = record { at = λ s (p, f). (h f).at s p }

module _ {S A B : Type 0} {P : S → Type 0} {E : S → Type 0} where
  pub Ends-bind :
      {Q : A → S → Type 0} {R : B → S → Type 0} {m : Act S A} {f : A → Act S B}
      → Ends P m Q E
      → ((a : A) → Ends (Q a) (f a) R E)
      → Ends P (m >>= f) R E
  Ends-bind {Q} {R} {m} {f} h k = record { at = λ s p. go (m s).0 (m s).1 (h.at s p) }
    where
      go : (r : Run A) (s : S) → Post Q E r s → Post R E (continue r f s).0 (continue r f s).1
      go (ok a) s q = (k a).at s q
      go (err e) s q = q
      go panic s q = q

module _ {S A : Type 0} {P : S → Type 0} {Q : A → S → Type 0} {E : S → Type 0} where
  -- a call into the world ends as its success and its failure say
  pub Ends-attempt :
      (e : Error) (m : S → Option A × S)
      → ((s : S) → P s → (a : A) → (m s).0 ≡ some a → Q a (m s).1)
      → ((s : S) → P s → (m s).0 ≡ none → E (m s).1)
      → Ends P (attempt e m) Q E
  Ends-attempt e m good bad = record { at = λ s p. go s p (m s).0 refl }
    where
      go : (s : S) → P s → (o : Option A) → (m s).0 ≡ o → Post Q E (or_else o (err e)) (m s).1
      go s p none h = bad s p h
      go s p (some a) h = good s p a h

  -- a pure step
  pub Ends-lift :
      (r : Run A)
      → ((s : S) → P s → (a : A) → r ≡ ok a → Q a s)
      → ((s : S) → P s → (e : Error) → r ≡ err e → E s)
      → ¬ (r ≡ panic)
      → Ends P (lift r) Q E
  Ends-lift (ok a) good bad safe = record { at = λ s p. good s p a refl }
  Ends-lift (err e) good bad safe = record { at = λ s p. bad s p e refl }
  Ends-lift panic good bad safe = absurd (safe refl)

module _ {S A B : Type 0} {P : S → Type 0} {R : B → S → Type 0} {E : S → Type 0} where
  -- a pure step, whose result the rest may name
  pub lift-Ends :
      (r : Run A) {f : A → Act S B}
      → ¬ (r ≡ panic)
      → ((s : S) → P s → E s)
      → ((a : A) → r ≡ ok a → Ends P (f a) R E)
      → Ends P (lift r >>= f) R E
  lift-Ends (ok a) safe bad k = k a refl
  lift-Ends (err e) safe bad k = record { at = bad }
  lift-Ends panic safe bad k = absurd (safe refl)

  -- a call into the world that keeps `P`, and of whose result `F` is known
  pub attempt-Ends :
      (e : Error) (m : S → Option A × S) (F : A → Type 0) {f : A → Act S B}
      → ((s : S) → P s → P (m s).1)
      → ((s : S) → P s → E s)
      → ((s : S) (a : A) → P s → (m s).0 ≡ some a → F a)
      → ((a : A) → F a → Ends P (f a) R E)
      → Ends P (attempt e m >>= f) R E
  attempt-Ends e m F {f} keep bad fact k = record { at = λ s p. go s p (m s).0 refl }
    where
      go :
          (s : S)
          → P s
          → (o : Option A) → (m s).0 ≡ o
          → Post R E
              (continue (or_else o (err e)) f (m s).1).0
              (continue (or_else o (err e)) f (m s).1).1
      go s p none h = bad (m s).1 (keep s p)
      go s p (some a) h = (k a (fact s a p h)).at (m s).1 (keep s p)

  -- a look at the state, at something that `P` fixes
  pub read-Ends :
      (look : S → A) (a : A) (f : A → Act S B)
      → ((s : S) → P s → look s ≡ a)
      → Ends P (f a) R E
      → Ends P ((λ s. (ok (look s), s)) >>= f) R E
  read-Ends look a f fixed h = record { at = λ s p. rw (fixed s p) (h.at s p) }
