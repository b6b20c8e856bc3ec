-- ===== src/Target/Kv.antt =====
-- What the client's calls do to the content of the key-value store and to leadership.
use kube_service_exporter.Base.{
  ◌≡◌, refl, sym, ◌∙◌, inl, inr, Bool, false, Option, none, some, arith, Text, text_eq_self,
  text_eq,
}
use kube_service_exporter.Go.Run.{Error, Run, ok, panic, kv_get, kv_put}
use kube_service_exporter.Go.Act.{
  Act, attempt, lift, ◌>>=◌, Ends, Ends-attempt, attempt-Ends, lift-Ends, read-Ends,
}
use kube_service_exporter.Consul.{Consul, Laws, Registration}

module _ (c : Consul) (laws : Laws c) where
  open c use {World}
  open laws use {kv}

  -- the store is the same, and so is the leader
  pub record Same (w w' : World) : Type 0 where
    pub at_key : (j : Text) → kv w' j ≡ kv w j
    pub leader : c.is_leader w' ≡ c.is_leader w

  -- the store is the same but for one key
  pub record SameBut (key : Text) (w w' : World) : Type 0 where
    pub at_key : (j : Text) → text_eq key j ≡ false → kv w' j ≡ kv w j
    pub leader : c.is_leader w' ≡ c.is_leader w

  pub Same-refl : (w : World) → Same w w
  Same-refl w = record { at_key = λ j. refl; leader = refl }

  pub Same-trans : {u v w : World} → Same u v → Same v w → Same u w
  Same-trans p q = record { at_key = λ j. q.at_key j ∙ p.at_key j; leader = q.leader ∙ p.leader }

  pub SameBut-trans :
      (key : Text) {u v w : World} → SameBut key u v → SameBut key v w → SameBut key u w
  SameBut-trans key p q = record {
    at_key = λ j h. q.at_key j h ∙ p.at_key j h;
    leader = q.leader ∙ p.leader;
  }

  pub Same-SameBut : (key : Text) {w w' : World} → Same w w' → SameBut key w w'
  Same-SameBut key s = record { at_key = λ j _. s.at_key j; leader = s.leader }

  pub get-Same : (k : Text) (w : World) → Same w (c.get k w).1
  get-Same k w = record { at_key = laws.get_kv k w; leader = laws.get_leader k w }

  pub services-Same : (w : World) → Same w (c.services w).1
  services-Same w = record { at_key = laws.services_kv w; leader = laws.services_leader w }

  pub register-Same : (r : Registration) (w : World) → Same w (c.register r w).1
  register-Same r w = record { at_key = laws.register_kv r w; leader = laws.register_leader r w }

  pub deregister-Same : (k : Text) (w : World) → Same w (c.deregister k w).1
  deregister-Same k w = record {
    at_key = laws.deregister_kv k w;
    leader = laws.deregister_leader k w;
  }

  pub wait-Same : (w : World) → Same w (c.wait_for_leader w).1
  wait-Same w = record { at_key = laws.wait_kv w; leader = laws.wait_leader w }

  module _ {A B : Type 0} (w₀ : World) {R : B → World → Type 0} {E : World → Type 0}
      (weak : (w : World) → Same w₀ w → E w) where
    -- a call that leaves the store alone
    pub quiet-Ends :
        (e : Error) (m : World → Option A × World) {f : A → Act World B}
        → ((w : World) → Same w (m w).1)
        → ((a : A) → Ends (Same w₀) (f a) R E)
        → Ends (Same w₀) (attempt e m >>= f) R E
    quiet-Ends e m same k =
        attempt-Ends e m (λ a. Unit) (λ w p. Same-trans p (same w)) weak (λ w a p h. tt)
          (λ a _. k a)

    pub pure-Ends :
        (r : Run A) {f : A → Act World B}
        → ¬ (r ≡ panic)
        → ((a : A) → r ≡ ok a → Ends (Same w₀) (f a) R E)
        → Ends (Same w₀) (lift r >>= f) R E
    pure-Ends r safe k = lift-Ends r safe weak k

  module _ {B : Type 0} (w₀ : World) {R : B → World → Type 0} {E : World → Type 0}
      (weak : (w : World) → Same w₀ w → E w) where
    pub get-Ends :
        (k : Text) {f : Option Text → Act World B}
        → ((o : Option Text) → kv w₀ k ≡ o → Ends (Same w₀) (f o) R E)
        → Ends (Same w₀) (attempt kv_get (c.get k) >>= f) R E
    get-Ends k rest =
        attempt-Ends kv_get (c.get k) (λ o. kv w₀ k ≡ o) (λ w p. Same-trans p (get-Same k w)) weak
          (λ w o p h. sym (p.at_key k) ∙ laws.get_value k w o h) rest

    pub leader-Ends :
        (f : Bool → Act World B)
        → Ends (Same w₀) (f (c.is_leader w₀)) R E
        → Ends (Same w₀) ((λ w. (ok (c.is_leader w), w)) >>= f) R E
    leader-Ends f h = read-Ends c.is_leader (c.is_leader w₀) f (λ w p. p.leader) h

  pub quiet_last-Ends :
      {A : Type 0} (w₀ : World) {E : World → Type 0}
      → ((w : World) → Same w₀ w → E w)
      → (e : Error) (m : World → Option A × World) → ((w : World) → Same w (m w).1)
      → Ends (Same w₀) (attempt e m) (λ a w. Same w₀ w) E
  quiet_last-Ends w₀ weak e m same =
      Ends-attempt e m (λ w p a h. Same-trans p (same w))
        (λ w p h. weak (m w).1 (Same-trans p (same w)))

  pub put-SameBut : (k v : Text) (w : World) → SameBut k w (c.put k v w).1
  put-SameBut k v w = record {
    at_key = λ j h. go (c.put k v w).0 refl j h;
    leader = laws.put_leader k v w;
  }
    where
      go :
          (o : Option (Unit {0}))
          → (c.put k v w).0 ≡ o
          → (j : Text) → text_eq k j ≡ false
          → kv (c.put k v w).1 j ≡ kv w j
      go none e j h = elim (laws.put_failed k v w j e) [
        | inl same ↦ same
        | inr (here, g) ↦ absurd (ground (arith, here, h))
      ]
      go (some tt) e j h = laws.put_ok k v w j e ∙ rw h refl

  pub put-Ends :
      (w₀ : World) (k v : Text)
      → Ends
          (Same w₀)
          (attempt kv_put (c.put k v))
          (λ u w. SameBut k w₀ w × (kv w k ≡ some v))
          (SameBut k w₀)
  put-Ends w₀ k v =
      Ends-attempt kv_put (c.put k v)
        (λ w p u h. (
          SameBut-trans k (Same-SameBut k p) (put-SameBut k v w),
          laws.put_ok k v w k h ∙ rw (text_eq_self k) refl,
        ))
        (λ w p h. SameBut-trans k (Same-SameBut k p) (put-SameBut k v w))
