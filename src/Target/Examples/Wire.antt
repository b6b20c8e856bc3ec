-- ===== src/Target/Examples/Wire.antt =====
-- A text format for documents, for the examples: a tag in front of each value, the length in front of
-- each text, and the size of the whole in front of it all.
use kube_service_exporter.Base.{
  ℕ, zero, suc, ◌+◌, ◌≤◌, ◌≡◌, refl, Bool, true, false, Option, none, some, [], ◌∷◌, ◌++◌, arith,
  ◌==◌, length, Text,
}
use kube_service_exporter.Go.Json.{
  Json, null, bool, num, str, arr, obj, Fields, end, field, Items, nil, cons,
}

abbrev mutual
  size : Json → ℕ
  size null = 0
  size (bool b) = 0
  size (num t) = 0
  size (str t) = 0
  size (arr items) = suc (size_items items)
  size (obj fs) = suc (size_fields fs)

  size_items : Items → ℕ
  size_items nil = 0
  size_items (cons j items) = suc (size j + size_items items)

  size_fields : Fields → ℕ
  size_fields end = 0
  size_fields (field k j fs) = suc (size j + size_fields fs)

-- a text, with `k` behind it
abbrev put_text : Text → Text → Text
put_text t k = length t ∷ (t ++ k)

abbrev bit : Bool → ℕ
bit true = 1
bit false = 0

abbrev mutual
  put : Json → Text → Text
  put null k = 0 ∷ k
  put (bool b) k = 1 ∷ bit b ∷ k
  put (num t) k = 2 ∷ put_text t k
  put (str t) k = 3 ∷ put_text t k
  put (arr items) k = 4 ∷ put_items items k
  put (obj fs) k = 5 ∷ put_fields fs k

  put_items : Items → Text → Text
  put_items nil k = 0 ∷ k
  put_items (cons j items) k = 1 ∷ put j (put_items items k)

  put_fields : Fields → Text → Text
  put_fields end k = 0 ∷ k
  put_fields (field t j fs) k = 1 ∷ put_text t (put j (put_fields fs k))

-- what stands in front, and the rest
abbrev Reader : Type 0 → Type 0
Reader A = Option (A × Text)

abbrev then_read : {A B : Type 0} → Reader A → (A → Text → Option B) → Option B
then_read none f = none
then_read (some p) f = f p.0 p.1

-- the first `n` numbers
abbrev split : ℕ → Text → Reader Text
split zero k = some ([], k)
split (suc n) [] = none
split (suc n) (c ∷ k) = then_read (split n k) λ t rest. some (c ∷ t, rest)

abbrev take_text : Text → Reader Text
take_text [] = none
take_text (n ∷ k) = split n k

abbrev take_bit : Text → Reader Bool
take_bit [] = none
take_bit (n ∷ k) = some (n == 1, k)

abbrev mutual
  take : ℕ → Text → Reader Json
  take n [] = none
  take n (zero ∷ k) = some (null, k)
  take n (suc zero ∷ k) = then_read (take_bit k) λ b rest. some (bool b, rest)
  take n (suc (suc zero) ∷ k) = then_read (take_text k) λ t rest. some (num t, rest)
  take n (suc (suc (suc zero)) ∷ k) = then_read (take_text k) λ t rest. some (str t, rest)
  take (suc n) (suc (suc (suc (suc zero))) ∷ k) =
      then_read (take_items n k) λ l rest. some (arr l, rest)
  take (suc n) (suc (suc (suc (suc (suc zero)))) ∷ k) =
      then_read (take_fields n k) λ fs rest. some (obj fs, rest)
  take _ _ = none

  take_items : ℕ → Text → Reader Items
  take_items n [] = none
  take_items n (zero ∷ k) = some (nil, k)
  take_items (suc n) (suc zero ∷ k) =
      then_read (take n k) λ j rest. then_read (take_items n rest) λ l rest'. some (cons j l, rest')
  take_items _ _ = none

  take_fields : ℕ → Text → Reader Fields
  take_fields n [] = none
  take_fields n (zero ∷ k) = some (end, k)
  take_fields (suc n) (suc zero ∷ k) = then_read (take_text k) λ t rest.
      then_read (take n rest)
        λ j rest'. then_read (take_fields n rest') λ fs rest''. some (field t j fs, rest'')
  take_fields _ _ = none

abbrev pub encode : Json → Text
encode j = size j ∷ put j []

abbrev pub decode : Text → Option Json
decode [] = none
decode (n ∷ k) = then_read (take n k) λ j rest. some j

split-put : (t k : Text) → split (length t) (t ++ k) ≡ some (t, k)
split-put [] k = refl
split-put (c ∷ t) k = rw (split-put t k) refl

mutual
  take-put : (n : ℕ) (j : Json) (k : Text) → size j ≤ n → take n (put j k) ≡ some (j, k)
  take-put n null k h = refl
  take-put n (bool true) k h = refl
  take-put n (bool false) k h = refl
  take-put n (num t) k h = rw (split-put t k) refl
  take-put n (str t) k h = rw (split-put t k) refl
  take-put zero (arr l) k h = absurd (omega arith)
  take-put (suc n) (arr l) k h = rw (take_items-put n l k (omega arith)) refl
  take-put zero (obj fs) k h = absurd (omega arith)
  take-put (suc n) (obj fs) k h = rw (take_fields-put n fs k (omega arith)) refl

  take_items-put :
      (n : ℕ) (l : Items) (k : Text) → size_items l ≤ n → take_items n (put_items l k) ≡ some (l, k)
  take_items-put n nil k h = refl
  take_items-put zero (cons j l) k h = absurd (omega arith)
  take_items-put (suc n) (cons j l) k h =
      rw (take-put n j (put_items l k) (omega arith), take_items-put n l k (omega arith)) refl

  take_fields-put :
      (n : ℕ) (fs : Fields) (k : Text)
      → size_fields fs ≤ n
      → take_fields n (put_fields fs k) ≡ some (fs, k)
  take_fields-put n end k h = refl
  take_fields-put zero (field t j fs) k h = absurd (omega arith)
  take_fields-put (suc n) (field t j fs) k h =
      rw
        (
          split-put t (put j (put_fields fs k)),
          take-put n j (put_fields fs k) (omega arith),
          take_fields-put n fs k (omega arith),
        )
        refl

pub decode-encode : (j : Json) → decode (encode j) ≡ some j
decode-encode j = rw (take-put (size j) j [] (omega arith)) refl
