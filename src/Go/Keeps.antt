-- ===== src/Go/Keeps.antt =====
-- Relations between the states before and after a call that calls keep, with a rule for each way to build
-- a call.
use kube_service_exporter.Base.{◌≡◌, refl, Bool, true, false, Option, if◌then◌else◌}
use kube_service_exporter.Go.Run.{Error, Run, ok, err, panic}
use kube_service_exporter.Go.Act.{Act, pure, lift, attempt, continue, ◌>>=◌}

pub record Preorder {S : Type 0} (R : S → S → Type 0) : Type 0 where
  pub stays : (s : S) → R s s
  pub joins : (a b c : S) → R a b → R b c → R a c

pub record Keeps {S A : Type 0} (R : S → S → Type 0) (m : Act S A) : Type 0 where
  pub at : (s : S) → R s (m s).1

module _ {S : Type 0} (R : S → S → Type 0) (o : Preorder R) where
  pub Keeps-pure : {A : Type 0} (a : A) → Keeps R (pure a)
  Keeps-pure a = record { at = o.stays }

  pub Keeps-lift : {A : Type 0} (r : Run A) → Keeps R (lift r)
  Keeps-lift r = record { at = o.stays }

  pub Keeps-bind :
      {A B : Type 0} {m : Act S A} {f : A → Act S B}
      → Keeps R m
      → ((a : A) → Keeps R (f a))
      → Keeps R (m >>= f)
  Keeps-bind {A} {B} {m} {f} h k = record { at = λ s. go s (m s).0 (m s).1 (h.at s) }
    where
      go : (s : S) (r : Run A) (s' : S) → R s s' → R s (continue r f s').1
      go s (ok a) s' q = o.joins s s' (f a s').1 q ((k a).at s')
      go s (err e) s' q = q
      go s panic s' q = q

  -- a pure step, whose result the rest may name
  pub lift-Keeps :
      {A B : Type 0} (r : Run A) {f : A → Act S B}
      → ((a : A) → r ≡ ok a → Keeps R (f a))
      → Keeps R (lift r >>= f)
  lift-Keeps (ok a) k = k a refl
  lift-Keeps (err e) k = record { at = o.stays }
  lift-Keeps panic k = record { at = o.stays }

  pub Keeps-if :
      {A : Type 0} (b : Bool) {m n : Act S A} → Keeps R m → Keeps R n → Keeps R (if b then m else n)
  Keeps-if true h k = h
  Keeps-if false h k = k

  -- a call into the world
  pub Keeps-attempt :
      {A : Type 0} (e : Error) (m : S → Option A × S)
      → ((s : S) → R s (m s).1)
      → Keeps R (attempt e m)
  Keeps-attempt e m h = record { at = h }

  -- a look at the state
  pub Keeps-read : {A : Type 0} (look : S → A) → Keeps R (λ s. (ok (look s), s))
  Keeps-read look = record { at = o.stays }
