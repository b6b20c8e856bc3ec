-- ===== src/Go/Strconv.antt =====
-- strconv.Itoa, strconv.ParseInt(s, 10, 32), strconv.ParseBool and strconv.FormatUint(n, 16).
mod Tests
pub mod Round
pub mod Hex
use kube_service_exporter.Base.{
  ℕ, zero, suc, ◌+◌, ◌-◌, ◌*◌, ◌/◌, ◌%◌, ◌^◌, Bool, true, false, ◌&&◌, ◌||◌, Option, none, some,
  List, [], ◌∷◌, ltb, leb, ◌==◌, if◌then◌else◌, Text, codes, text_eq,
}
use kube_service_exporter.Go.Int.{ℤ, pos, negsuc}

unfoldable pub is_digit : ℕ → Bool
is_digit c = leb b'0' c && leb c b'9'

-- 0 to 9, then a to f
digit : ℕ → ℕ
digit d = if ltb d 10 then b'0' + d else b'a' + (d - 10)

-- the digits of a number below `base ^ fuel`, the last one in front of `rest`
digits_onto : ℕ → ℕ → ℕ → Text → Text
digits_onto zero base n rest = rest
digits_onto (suc fuel) base n rest =
    let more = digits_onto fuel base (n / base) (digit (n % base) ∷ rest) in
    if ltb n base then digit (n % base) ∷ rest else more

-- `n + 1` rounds are enough, since each divides by at least 2
unfoldable pub format : ℕ → ℕ → Text
unfolding digits_onto digit
format base n = digits_onto (n + 1) base n []

unfoldable pub itoa : ℤ → Text
unfolding format
itoa (pos n) = format 10 n
itoa (negsuc n) = b'-' ∷ format 10 (n + 1)

parse_digits : ℕ → Text → Option ℕ
parse_digits acc [] = some acc
parse_digits acc (c ∷ s) =
    let rest = parse_digits (acc * 10 + (c - b'0')) s in if is_digit c then rest else none

-- at least one digit
parse_number : Text → Option ℕ
unfolding parse_digits is_digit
parse_number [] = none
parse_number (c ∷ s) = parse_digits 0 (c ∷ s)

-- the range check of a positive number
positive : Option ℕ → Option ℤ
positive none = none
positive (some n) = if ltb n (2 ^ 31) then some (pos n) else none

-- the range check of a negated number; -0 is 0
negative : Option ℕ → Option ℤ
negative none = none
negative (some zero) = some (pos 0)
negative (some (suc n)) = if ltb n (2 ^ 31) then some (negsuc n) else none

-- strconv.ParseInt(s, 10, 32), with `none` for a syntax or a range error
unfoldable pub parse_int : Text → Option ℤ
unfolding positive negative parse_number
parse_int [] = none
parse_int (c ∷ s) =
    if c == b'+'
    then positive (parse_number s)
    else if c == b'-'
    then negative (parse_number s)
    else positive (parse_number (c ∷ s))

is_one_of : Text → List Text → Bool
is_one_of s [] = false
is_one_of s (t ∷ ts) = text_eq s t || is_one_of s ts

true_words : List Text
true_words = codes "1" ∷ codes "t" ∷ codes "T" ∷ codes "true" ∷ codes "TRUE" ∷ codes "True" ∷ []

false_words : List Text
false_words = codes "0" ∷ codes "f" ∷ codes "F" ∷ codes "false" ∷ codes "FALSE" ∷ codes "False" ∷ []

unfoldable pub parse_bool : Text → Option Bool
unfolding is_one_of true_words false_words
parse_bool s =
    if is_one_of s true_words
    then some true
    else if is_one_of s false_words
    then some false
    else none
