-- ===== src/Util/DomainName.antt =====
-- IsDomainName against a description of a domain name by its labels.
use kube_service_exporter.Base.{
  ℕ, ◌≡◌, refl, ap, ◌∙◌, ◌≢◌, ◌⊎◌, inl, inr, Bool, true, false, not, ◌&&◌, ◌||◌, Option, none, some,
  List, [], ◌∷◌, ◌++◌, append_assoc, append-nil, arith, ltb, leb, ◌==◌, if◌then◌else◌, Bool-cases,
  length, length-append, Text, is_empty, text_eq,
}
use native.Mathlib.Decide.{ℕ_discrete}
use kube_service_exporter.Go.Strconv.{is_digit}
use kube_service_exporter.Util.{is_letter, Scan, scan_byte, scan, last_or, is_domain_name}

-- the labels between the dots; there is at least one
abbrev onto_first : Text → List Text → List Text
onto_first p [] = p ∷ []
onto_first p (l ∷ ls) = (p ++ l) ∷ ls

labels : Text → List Text
labels [] = [] ∷ []
labels (c ∷ s) = let ls = labels s in if c == b'.' then [] ∷ ls else onto_first (c ∷ []) ls

abbrev is_name_byte : ℕ → Bool
is_name_byte c = is_letter c || is_digit c || c == b'-'

all_name_bytes : Text → Bool
all_name_bytes [] = true
all_name_bytes (c ∷ s) = is_name_byte c && all_name_bytes s

-- some byte is no digit and no dot
has_non_numeric : Text → Bool
has_non_numeric [] = false
has_non_numeric (c ∷ s) = is_letter c || c == b'-' || has_non_numeric s

abbrev first_or : ℕ → Text → ℕ
first_or d [] = d
first_or d (c ∷ s) = c

-- letters, digits, hyphens and underscores, 1 to 63 of them, with no hyphen at either end
is_label : Text → Bool
is_label l =
    all_name_bytes l
    && not (first_or b'.' l == b'-')
    && not (last_or b'.' l == b'-')
    && not (is_empty l)
    && leb (length l) 63

-- every label is one, but the last may be empty: the name then ends with a dot
are_labels : List Text → Bool
are_labels [] = true
are_labels (l ∷ []) = is_empty l || is_label l
are_labels (l ∷ m ∷ ls) = is_label l && are_labels (m ∷ ls)

-- the length of the presentation format
abbrev fits : Text → Bool
fits s = ltb 0 (length s) && leb (length s) 254 && (leb (length s) 253 || last_or b'.' s == b'.')

pub is_name : Text → Bool
unfolding are_labels is_label all_name_bytes labels has_non_numeric
is_name s = text_eq s (b'.' ∷ []) || fits s && are_labels (labels s) && has_non_numeric s

-- the state of the scan behind the part `p` of a label
abbrev after : Text → Bool → Scan
after p n = record { last = last_or b'.' p; non_numeric = n; partlen = length p }

-- a part of a label that the scan has not refused
abbrev started : Text → Bool
started p = all_name_bytes p && not (first_or b'.' p == b'-')

last_or-snoc : (d : ℕ) (p : Text) (c : ℕ) → last_or d (p ++ c ∷ []) ≡ c
last_or-snoc d [] c = refl
last_or-snoc d (x ∷ p) c = last_or-snoc x p c

last_or-name :
    (p : Text) (d : ℕ) → all_name_bytes p ≡ true → (p ≡ []) ⊎ (is_name_byte (last_or d p) ≡ true)
unfolding all_name_bytes
last_or-name [] d h = inl refl
last_or-name (x ∷ []) d h = inr (ground arith)
last_or-name (x ∷ y ∷ p) d h = ground (arith, last_or-name (y ∷ p) x)

all_name_bytes-snoc :
    (p : Text) (c : ℕ) → all_name_bytes (p ++ c ∷ []) ≡ (all_name_bytes p && is_name_byte c)
unfolding all_name_bytes
all_name_bytes-snoc [] c = ground arith
all_name_bytes-snoc (x ∷ p) c = ground (arith, all_name_bytes-snoc p c)

started-snoc :
    (p : Text) (c : ℕ)
    → started p ≡ true
    → is_name_byte c ≡ true
    → (p ≡ [] → c ≢ b'-')
    → started (p ++ c ∷ []) ≡ true
unfolding all_name_bytes
started-snoc [] c h n d = ground (arith, d refl)
started-snoc (x ∷ p) c h n d = ground (arith, all_name_bytes-snoc p c)

onto_first-snoc :
    (p : Text) (c : ℕ) (ls : List Text)
    → onto_first (p ++ c ∷ []) ls ≡ onto_first p (onto_first (c ∷ []) ls)
onto_first-snoc p c [] = refl
onto_first-snoc p c (l ∷ ls) = ap (λ t. t ∷ ls) (append_assoc p (c ∷ []) l)

labels-cons : (s : Text) → (l : Text) × (ls : List Text) × (labels s ≡ l ∷ ls)
unfolding labels
labels-cons [] = ([], [], refl)
labels-cons (c ∷ s) = elim (Bool-cases (c == b'.')) [
  | inl dot ↦ ([], labels s, rw dot)
  | inr more ↦ let (l, ls, e) = labels-cons s in (c ∷ l, ls, rw (more, e))
]

are_labels-not :
    (l : Text) (ls : List Text)
    → is_empty l ≡ false
    → is_label l ≡ false
    → are_labels (l ∷ ls) ≡ false
unfolding are_labels
are_labels-not l [] e h = rw (e, h)
are_labels-not l (m ∷ ls) e h = rw h

all_name_bytes-not :
    (p l : Text) (c : ℕ) → is_name_byte c ≡ false → all_name_bytes (p ++ c ∷ l) ≡ false
unfolding all_name_bytes
all_name_bytes-not [] l c h = ground arith
all_name_bytes-not (x ∷ p) l c h = ground (arith, all_name_bytes-not p l c h)

is_empty-snoc : (p l : Text) (c : ℕ) → is_empty (p ++ c ∷ l) ≡ false
is_empty-snoc [] l c = refl
is_empty-snoc (x ∷ p) l c = refl

-- a label with a byte that no label holds
bad_byte :
    (p : Text) (c : ℕ) (ls : List Text)
    → is_name_byte c ≡ false
    → are_labels (onto_first p (onto_first (c ∷ []) ls)) ≡ false
unfolding is_label
bad_byte p c [] h = are_labels-not _ [] (is_empty-snoc p [] c) (rw (all_name_bytes-not p [] c h))
bad_byte p c (l ∷ ls) h =
    are_labels-not _ ls (is_empty-snoc p l c) (rw (all_name_bytes-not p l c h))

leading_dash : (ls : List Text) → are_labels (onto_first [] (onto_first (b'-' ∷ []) ls)) ≡ false
unfolding is_label
leading_dash [] = are_labels-not _ [] refl (ground arith)
leading_dash (l ∷ ls) = are_labels-not _ ls refl (ground arith)

-- what the end of the text, and the next byte, do to the state behind a part of a label
scan-end :
    (p : Text) (n : Bool)
    → started p ≡ true
    → scan (after p n) [] ≡ (are_labels (p ∷ []) && (n || false))
unfolding scan are_labels is_label
scan-end [] n h = ground arith
scan-end (x ∷ p) n h = ground arith

scan_byte-name :
    (p : Text) (n : Bool) (c : ℕ)
    → started p ≡ true
    → is_name_byte c ≡ true
    → (p ≡ [] → c ≢ b'-')
    → scan_byte (after p n) c ≡ some (after (p ++ c ∷ []) (is_letter c || c == b'-' || n))
unfolding scan_byte is_letter is_digit
scan_byte-name p n c h m d =
    rw (last_or-snoc b'.' p c, length-append p (c ∷ [])) (ground (arith, last_or-name p b'.', d))

scan_byte-dot :
    (p : Text) (n : Bool)
    → started p ≡ true
    → scan_byte (after p n) b'.' ≡ (if is_label p then some (after [] n) else none)
unfolding scan_byte is_letter is_digit is_label
scan_byte-dot [] n h = ground arith
scan_byte-dot (x ∷ p) n h = ground (arith, last_or-name (x ∷ p) b'.')

scan_byte-other : (st : Scan) (c : ℕ) → is_name_byte c ≡ false → c ≢ b'.' → scan_byte st c ≡ none
unfolding scan_byte
scan_byte-other st c h d = ground arith

are_labels-dot :
    (p s : Text) → are_labels (onto_first p ([] ∷ labels s)) ≡ (is_label p && are_labels (labels s))
unfolding are_labels
are_labels-dot p s = let (l, ls, e) = labels-cons s in rw (e, append-nil p)

onto_first-nil : (s : Text) → onto_first [] (labels s) ≡ labels s
onto_first-nil s = let (l, ls, e) = labels-cons s in rw e

labels-name : (c : ℕ) (s : Text) → c ≢ b'.' → labels (c ∷ s) ≡ onto_first (c ∷ []) (labels s)
unfolding labels
labels-name c s d = ground arith

scan-cons :
    (st : Scan) (c : ℕ) (s : Text) (o : Option Scan)
    → scan_byte st c ≡ o
    → scan st (c ∷ s) ≡ (elim o [ none ↦ false | some st' ↦ scan st' s ])
unfolding scan
scan-cons st c s o e = rw (e, scan)

-- what the scan says of a text behind the part `p` of a label, by labels
abbrev Scanned : Text → Bool → Text → Type 0
Scanned p n s =
    scan (after p n) s ≡ (are_labels (onto_first p (labels s)) && (n || has_non_numeric s))

module _ (s : Text) (p : Text) (n : Bool) (h : started p ≡ true) where
  scan-name :
      (c : ℕ)
      → is_name_byte c ≡ true
      → c ≢ b'.'
      → (p ≡ [] → c ≢ b'-')
      → Scanned (p ++ c ∷ []) (is_letter c || c == b'-' || n) s
      → Scanned p n (c ∷ s)
  unfolding has_non_numeric
  scan-name c m e d ih =
      scan-cons _ c s _ (scan_byte-name p n c h m d)
      ∙ ih
      ∙ rw (labels-name c s e, onto_first-snoc p c (labels s)) (ground arith)

  scan-dot : Scanned [] n s → Scanned p n (b'.' ∷ s)
  unfolding has_non_numeric labels is_letter
  scan-dot ih =
      scan-cons _ b'.' s _ (scan_byte-dot p n h)
      ∙ rw (are_labels-dot p s) (ground (arith, ih, onto_first-nil s))

  scan-other : (c : ℕ) → is_name_byte c ≡ false → c ≢ b'.' → Scanned p n (c ∷ s)
  scan-other c m d =
      scan-cons _ c s _ (scan_byte-other (after p n) c m d)
      ∙ rw (labels-name c s d, bad_byte p c (labels s) m)

  scan-dash : p ≡ [] → Scanned p n (b'-' ∷ s)
  unfolding scan labels has_non_numeric scan_byte is_letter is_digit
  scan-dash e = rw e (ground (arith, leading_dash (labels s)))

-- a hyphen at the start of a label
dash_first : (c : ℕ) (p : Text) → ((c ≡ b'-') × (p ≡ [])) ⊎ (p ≡ [] → c ≢ b'-')
dash_first c [] = elim (ℕ_discrete c b'-') [ yes e ↦ inl (e, refl) | no d ↦ inr (λ _. d) ]
dash_first c (x ∷ p) = inr (λ e. cc)

scan_lem : (s p : Text) (n : Bool) → started p ≡ true → Scanned p n s
unfolding labels has_non_numeric all_name_bytes
scan_lem [] p n h = scan-end p n h ∙ rw (append-nil p)
scan_lem (c ∷ s) p n h = elim (ℕ_discrete c b'.') [
  | yes dot ↦ rw dot (scan-dot s p n h (scan_lem s [] n refl))
  | no d ↦ elim (Bool-cases (is_name_byte c)) [
    | inr other ↦ scan-other s p n h c other d
    | inl name ↦ elim (dash_first c p) [
      | inl (e, e') ↦ rw e (scan-dash s p n h e')
      | inr ok ↦ scan-name s p n h c name d ok (scan_lem s _ _ (started-snoc p c h name ok))
    ]
  ]
]

-- IsDomainName accepts exactly the root "." and the texts of 1 to 254 bytes (253 without a final dot)
-- that are made of labels between dots, the last of which may be empty, and in which some byte is
-- neither a digit nor a dot. A label has 1 to 63 letters, digits, underscores and hyphens, with no
-- hyphen first or last.
pub is_domain_name-eq-is_name : (s : Text) → is_domain_name s ≡ is_name s
unfolding is_domain_name is_name
is_domain_name-eq-is_name s = ground (arith, scan_lem s [] false refl, onto_first-nil s)
