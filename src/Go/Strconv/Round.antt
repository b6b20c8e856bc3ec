-- ===== src/Go/Strconv/Round.antt =====
-- Numbers as text and back.
use kube_service_exporter.Base.{
  ℕ, zero, suc, ◌+◌, ◌-◌, ◌*◌, ◌/◌, ◌%◌, ◌<◌, ◌≡◌, refl, ap, ◌∙◌, inl, inr, true, Option, none,
  some, [], ◌∷◌, arith, ltb, Bool-cases, Text,
}
use native.Mathlib.Numerals.{add-one}
use kube_service_exporter.Go.Int.{ℤ, pos, negsuc, InInt32}
use kube_service_exporter.Go.Strconv.{
  is_digit, digit, digits_onto, format, itoa, parse_digits, parse_number, positive, negative,
  parse_int,
}

positive-InInt32 : (o : Option ℕ) (z : ℤ) → positive o ≡ some z → InInt32 z
unfolding positive
positive-InInt32 none z h = cc
positive-InInt32 (some n) (pos m) h = ground arith
positive-InInt32 (some n) (negsuc m) h = ground arith

negative-InInt32 : (o : Option ℕ) (z : ℤ) → negative o ≡ some z → InInt32 z
unfolding negative
negative-InInt32 none z h = cc
negative-InInt32 (some zero) (pos m) h = ground arith
negative-InInt32 (some zero) (negsuc m) h = ground arith
negative-InInt32 (some (suc n)) (pos m) h = ground arith
negative-InInt32 (some (suc n)) (negsuc m) h = ground arith

-- ParseInt with a bit size of 32 returns a value that an int32 holds.
pub parse_int-InInt32 : (s : Text) (z : ℤ) → parse_int s ≡ some z → InInt32 z
unfolding parse_int
parse_int-InInt32 [] z h = cc
parse_int-InInt32 (c ∷ s) z h = ground (
  arith,
  positive-InInt32 (parse_number s) z,
  negative-InInt32 (parse_number s) z,
  positive-InInt32 (parse_number (c ∷ s)) z,
)

digit-is_digit : (n : ℕ) → is_digit (digit (n % 10)) ≡ true
unfolding digit is_digit
digit-is_digit n = ground arith

digit-value : (n : ℕ) → digit (n % 10) - b'0' ≡ n % 10
unfolding digit
digit-value n = ground arith

-- decimal digits begin with a digit
digits_onto-head :
    (fuel n : ℕ) (rest : Text)
    → n < fuel
    → (c : ℕ) × (s : Text) × (digits_onto fuel 10 n rest ≡ c ∷ s) × (is_digit c ≡ true)
unfolding digits_onto
digits_onto-head zero n rest h = absurd (omega arith)
digits_onto-head (suc fuel) n rest h = elim (Bool-cases (ltb n 10)) [
  | inl small ↦ rw small (_, rest, refl, digit-is_digit n)
  | inr large ↦ rw large (digits_onto-head fuel (n / 10) _ (ground arith))
]

parse_digits-digit :
    (acc n : ℕ) (s : Text)
    → parse_digits acc (digit (n % 10) ∷ s) ≡ parse_digits (acc * 10 + n % 10) s
unfolding parse_digits
parse_digits-digit acc n s = rw (digit-is_digit n, digit-value n)

parse_digits-digits_onto :
    (fuel n : ℕ) (rest : Text)
    → n < fuel
    → parse_digits 0 (digits_onto fuel 10 n rest) ≡ parse_digits n rest
unfolding digits_onto
parse_digits-digits_onto zero n rest h = absurd (omega arith)
parse_digits-digits_onto (suc fuel) n rest h = elim (Bool-cases (ltb n 10)) [
  | inl small ↦
      rw (small, parse_digits-digit 0 n rest) (ap (λ k. parse_digits k rest) (ground arith))
  | inr large ↦
      rw
        (
          large,
          parse_digits-digits_onto fuel (n / 10) _ (ground arith),
          parse_digits-digit _ n rest,
        )
        (ap (λ k. parse_digits k rest) (omega arith))
]

-- what is printed is not empty
pub itoa-head : (z : ℤ) → (c : ℕ) × (s : Text) × (itoa z ≡ c ∷ s)
unfolding itoa format
itoa-head (pos n) = let (c, s, e, d) = digits_onto-head (n + 1) n [] (omega arith) in (c, s, e)
itoa-head (negsuc n) = (b'-', format 10 (n + 1), refl)

parse_number-cons : (c : ℕ) (s t : Text) → t ≡ c ∷ s → parse_number t ≡ parse_digits 0 t
unfolding parse_number
parse_number-cons c s t e = rw e

parse_number-format : (n : ℕ) → parse_number (format 10 n) ≡ some n
unfolding format parse_digits
parse_number-format n =
    let (c, s, e, d) = digits_onto-head (n + 1) n [] (omega arith) in
    parse_number-cons c s _ e ∙ parse_digits-digits_onto (n + 1) n [] (omega arith) ∙ refl

-- text that begins with a digit has no sign
parse_int-unsigned :
    (c : ℕ) (s t : Text) → t ≡ c ∷ s → is_digit c ≡ true → parse_int t ≡ positive (parse_number t)
unfolding parse_int is_digit
parse_int-unsigned c s t e d = rw e (ground arith)

-- A port survives printing and parsing.
pub parse_int-itoa : (z : ℤ) → InInt32 z → parse_int (itoa z) ≡ some z
unfolding itoa
parse_int-itoa (pos n) h =
    let (c, s, e, d) = digits_onto-head (n + 1) n [] (omega arith) in
    parse_int-unsigned c s (format 10 n) (unfold format in e) d
    ∙ (unfold positive in rw (parse_number-format n) (ground arith))
parse_int-itoa (negsuc n) h =
    unfold parse_int in rw (parse_number-format (n + 1)) (ground (arith, add-one n))
