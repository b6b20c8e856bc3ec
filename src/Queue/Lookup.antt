-- ===== src/Queue/Lookup.antt =====
-- The maps of the queue: a key that is deleted is missing, and the others stay.
use kube_service_exporter.Base.{
  ◌≡◌, refl, ap, inl, inr, Bool, true, false, none, some, List, [], ◌∷◌, if◌then◌else◌, Bool-cases,
}
use kube_service_exporter.Queue.{find, drop_key}

-- the keys are compared by equality
pub record IsEquality {V : Type 0} (same : V → V → Bool) : Type 0 where
  pub sound : (a b : V) → same a b ≡ true → a ≡ b
  pub reflexive : (a : V) → same a a ≡ true

-- keys that can be told apart
abbrev pub decided : {V : Type 0} → Discrete V → V → V → Bool
decided dec a b = elim (dec a b) [ yes e ↦ true | no n ↦ false ]

pub decided-IsEquality : {V : Type 0} (dec : Discrete V) → IsEquality (decided dec)
decided-IsEquality dec = record {
  sound = λ a b. sound (dec a b);
  reflexive = λ a. holds (dec a a) refl;
}
  where
    sound : {P : Type 0} (d : Dec P) → (elim d [ yes e ↦ true | no n ↦ false ]) ≡ true → P
    sound (yes e) h = e
    sound (no n) h = cc

    holds : {P : Type 0} (d : Dec P) → P → (elim d [ yes e ↦ true | no n ↦ false ]) ≡ true
    holds (yes e) p = refl
    holds (no n) p = absurd (n p)

module _ {V : Type 0} (same : V → V → Bool) where
  pub find-drop_key :
      {A : Type 0} (v : V) (m : List (V × A)) → find same v (drop_key same v m) ≡ none
  unfolding find drop_key
  find-drop_key v [] = refl
  find-drop_key v (e ∷ m) = elim (Bool-cases (same e.0 v)) [
    | inl here ↦ rw here (find-drop_key v m)
    | inr apart ↦ rw (apart, apart) (find-drop_key v m)
  ]

  pub find-drop_other :
      {A : Type 0} (v w : V) (m : List (V × A))
      → IsEquality same
      → same v w ≡ false
      → find same w (drop_key same v m) ≡ find same w m
  unfolding find drop_key
  find-drop_other v w [] law other = refl
  find-drop_other v w (e ∷ m) law other = elim (Bool-cases (same e.0 v)) [
    | inl here ↦
        let apart : same e.0 w ≡ false = rw (law.sound e.0 v here) other in
        rw (here, apart) (find-drop_other v w m law other)
    | inr apart ↦
        rw apart
          (ap (λ rest. if same e.0 w then some e.1 else rest) (find-drop_other v w m law other))
  ]

  pub find-cons :
      {A : Type 0} (v w : V) (a : A) (m : List (V × A))
      → find same w ((v, a) ∷ m) ≡ (if same v w then some a else find same w m)
  unfolding find
  find-cons v w a m = refl
