-- ===== src/Go/Run.antt =====
-- How a call ends: with a value, with a Go error, or with a run-time panic.
use kube_service_exporter.Base.{◌≡◌, refl, Bool, true, false, Option, none, some, if◌then◌else◌}

-- the errors that the program itself makes, or wraps
pub data Error : Type 0 where
  no_cluster_id bad_listen_port bad_health_check_port bad_per_cluster bad_custom_attrs : Error
  ingress_lookup ingress_missing ingress_not_service bad_ingress_sni : Error
  no_leader agent_services register deregister kv_get kv_put kv_delete : Error
  bad_json hash_failed key_template empty_queue bad_address no_client no_statsd no_kube_client :
      Error

pub data Run {ℓ} (A : Type ℓ) : Type ℓ where
  ok : A → Run A
  err : Error → Run A
  panic : Run A

infixl 5 ◌>>=◌
abbrev pub ◌>>=◌ {ℓ κ} : {A : Type ℓ} {B : Type κ} → Run A → (A → Run B) → Run B
ok a >>= f = f a
err e >>= f = err e
panic >>= f = panic

abbrev pub or_else {ℓ} : {A : Type ℓ} → Option A → Run A → Run A
or_else (some a) failure = ok a
or_else none failure = failure

-- the call returns: with a value of which `P` holds, or with an error
pub data Safe {ℓ κ} {A : Type ℓ} (P : A → Type κ) : Run A → Type (ℓ ⊔ κ) where
  returns : {a : A} → P a → Safe P (ok a)
  fails : (e : Error) → Safe P (err e)

module _ {ℓ κ} {A : Type ℓ} {P : A → Type κ} where
  pub Safe-bind {ℓ' κ'} :
      {B : Type ℓ'} {Q : B → Type κ'} {r : Run A} {f : A → Run B}
      → Safe P r
      → ((a : A) → P a → Safe Q (f a))
      → Safe Q (r >>= f)
  Safe-bind (returns p) k = k _ p
  Safe-bind (fails e) k = fails e

  pub Safe-map {κ'} : {Q : A → Type κ'} {r : Run A} → Safe P r → ((a : A) → P a → Q a) → Safe Q r
  Safe-map (returns p) k = returns (k _ p)
  Safe-map (fails e) k = fails e

  pub Safe-if :
      {x y : Run A} (b : Bool)
      → (b ≡ true → Safe P x)
      → (b ≡ false → Safe P y)
      → Safe P (if b then x else y)
  Safe-if true p q = p refl
  Safe-if false p q = q refl

  pub Safe-ok : {r : Run A} {a : A} → Safe P r → r ≡ ok a → P a
  Safe-ok (returns p) e = rw (ok_inj e) at p
    where
      ok_inj : {a b : A} → ok a ≡ ok b → a ≡ b
      ok_inj e = cc
  Safe-ok (fails c) e = cc

  pub Safe-panic : {r : Run A} → Safe P r → ¬ (r ≡ panic)
  Safe-panic (returns p) = λ e. cc
  Safe-panic (fails c) = λ e. cc

-- the call returns a value of which `P` holds: no error, and no panic
pub data Gives {ℓ κ} {A : Type ℓ} (P : A → Type κ) : Run A → Type (ℓ ⊔ κ) where
  gives : {a : A} → P a → Gives P (ok a)

module _ {ℓ κ} {A : Type ℓ} {P : A → Type κ} where
  pub Gives-bind {ℓ' κ'} :
      {B : Type ℓ'} {Q : B → Type κ'} {r : Run A} {f : A → Run B}
      → Gives P r
      → ((a : A) → P a → Gives Q (f a))
      → Gives Q (r >>= f)
  Gives-bind (gives p) k = k _ p

  pub Gives-map {κ'} : {Q : A → Type κ'} {r : Run A} → Gives P r → ((a : A) → P a → Q a) → Gives Q r
  Gives-map (gives p) k = gives (k _ p)

  pub Gives-if :
      {x y : Run A} (b : Bool)
      → (b ≡ true → Gives P x)
      → (b ≡ false → Gives P y)
      → Gives P (if b then x else y)
  Gives-if true p q = p refl
  Gives-if false p q = q refl

  pub value_of : {r : Run A} → Gives P r → (a : A) × (r ≡ ok a) × P a
  value_of (gives p) = (_, refl, p)

  pub Gives-Safe : {r : Run A} → Gives P r → Safe P r
  Gives-Safe (gives p) = returns p

  pub Gives-ok : {r : Run A} {a : A} → Gives P r → r ≡ ok a → P a
  Gives-ok g e = Safe-ok (Gives-Safe g) e

-- if the call returns a value, `P` holds of it
pub data Yields {ℓ κ} {A : Type ℓ} (P : A → Type κ) : Run A → Type (ℓ ⊔ κ) where
  yields : {a : A} → P a → Yields P (ok a)
  fails_instead : (e : Error) → Yields P (err e)
  panics_instead : Yields P panic

module _ {ℓ κ} {A : Type ℓ} {P : A → Type κ} where
  pub Yields-bind {ℓ' κ'} :
      {B : Type ℓ'} {Q : B → Type κ'} {r : Run A} {f : A → Run B}
      → Yields P r
      → ((a : A) → P a → Yields Q (f a))
      → Yields Q (r >>= f)
  Yields-bind (yields p) k = k _ p
  Yields-bind (fails_instead e) k = fails_instead e
  Yields-bind panics_instead k = panics_instead

  -- a call that does not panic
  pub Safe-Yields {κ'} : {Q : A → Type κ'} {r : Run A} → Safe Q r → Yields P r → Safe P r
  Safe-Yields (returns q) (yields p) = returns p
  Safe-Yields (fails e) y = fails e
