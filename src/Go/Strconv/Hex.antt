-- ===== src/Go/Strconv/Hex.antt =====
-- strconv.FormatUint(n, 16) loses nothing of its number.
use kube_service_exporter.Base.{
  ℕ, zero, suc, ◌+◌, ◌-◌, ◌*◌, ◌/◌, ◌%◌, ◌<◌, ◌≡◌, sym, ap, ◌∙◌, inl, inr, [], ◌∷◌, arith, ltb,
  if◌then◌else◌, Bool-cases, Text,
}
use kube_service_exporter.Go.Strconv.{format, digits_onto, digit}

undigit : ℕ → ℕ
undigit c = if ltb c b'a' then c - b'0' else c - b'a' + 10

-- the number that hexadecimal digits stand for, behind `acc`
read_hex : ℕ → Text → ℕ
unfolding undigit
read_hex acc [] = acc
read_hex acc (c ∷ s) = read_hex (acc * 16 + undigit c) s

undigit-digit : (d : ℕ) → d < 16 → undigit (digit d) ≡ d
unfolding undigit digit
undigit-digit d h = ground arith

read_hex-digits_onto :
    (fuel n : ℕ) (rest : Text)
    → n < fuel
    → read_hex 0 (digits_onto fuel 16 n rest) ≡ read_hex n rest
unfolding digits_onto read_hex
read_hex-digits_onto zero n rest h = absurd (omega arith)
read_hex-digits_onto (suc fuel) n rest h = elim (Bool-cases (ltb n 16)) [
  | inl last ↦
      let value : 0 * 16 + undigit (digit (n % 16)) ≡ n =
        ground (arith, undigit-digit (n % 16) (omega arith)) in
      rw last (ap (λ k. read_hex k rest) value)
  | inr more ↦
      let value : n / 16 * 16 + undigit (digit (n % 16)) ≡ n =
        omega (arith, undigit-digit (n % 16) (omega arith)) in
      rw more (
        read_hex-digits_onto fuel (n / 16) (digit (n % 16) ∷ rest) (ground arith)
        ∙ ap (λ k. read_hex k rest) value)
]

read_hex-format : (n : ℕ) → read_hex 0 (format 16 n) ≡ n
unfolding format read_hex
read_hex-format n = read_hex-digits_onto (n + 1) n [] (omega arith)

pub format-injective : (m n : ℕ) → format 16 m ≡ format 16 n → m ≡ n
format-injective m n e = sym (read_hex-format m) ∙ ap (read_hex 0) e ∙ read_hex-format n
