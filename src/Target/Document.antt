-- ===== src/Target/Document.antt =====
-- The program's own part of reading and writing documents: the hash, and whether what is stored is out
-- of date.
pub mod Reread
use kube_service_exporter.Base.{
  ℕ, ◌≡◌, refl, ap, ◌⊎◌, inl, inr, Bool, true, false, Option, none, some, List, arith,
  if◌then◌else◌, Bool-cases, Text, text_eq_iff, text_eq_self, text_eq,
}
use kube_service_exporter.Go.Run.{Run, ok, err, panic, ◌>>=◌, bad_json, hash_failed}
use kube_service_exporter.Go.Strconv.{format}
use kube_service_exporter.Go.Json.{
  Json, null, bool, num, str, arr, obj, Fields, end, field, get_field,
}
use kube_service_exporter.Export.{ExportedService}
use kube_service_exporter.Target.Payload.{hash_key, payload}
use kube_service_exporter.Target.Nodes.{NodeEntry}

-- What is not the program's own: encoding/json, the structure hash of a value, the rendering of a key
-- template with a service, and sort.Sort by Less, which need not be stable.
pub record Codec : Type 0 where
  pub encode : Json → Text
  pub decode : Text → Option Json
  pub structure_hash : ExportedService → Option ℕ
  pub render : Text → ExportedService → Option Text
  pub sort_by : (NodeEntry → NodeEntry → Bool) → List NodeEntry → List NodeEntry

-- the hash that is stored, in hexadecimal
unfoldable pub hash_text : Codec → ExportedService → Run Text
hash_text codec es = elim (codec.structure_hash es) [
  | none ↦ err hash_failed
  | some h ↦ ok (format 16 h)
]

-- Unmarshal into a map; null leaves it nil
document : Option Json → Run Fields
document (some (obj fs)) = ok fs
document (some null) = ok end
document _ = err bad_json

-- `consulHash == hash`, between an interface and a string
same_hash : Json → Text → Bool
same_hash (str s) hash = text_eq s hash
same_hash _ hash = false

compare_hash : Codec → ExportedService → Option Json → Run Bool
compare_hash codec es none = ok true
compare_hash codec es (some stored) = do
  hash ← hash_text codec es
  if same_hash stored hash then ok false else ok true

-- shouldUpdateKV behind its read of the store
unfoldable pub outdated : Codec → ExportedService → Option Text → Run Bool
unfolding compare_hash document same_hash
outdated codec es none = ok true
outdated codec es (some value) = do
  meta ← document (codec.decode value)
  compare_hash codec es (get_field hash_key meta)

-- encoding/json reads back what it wrote
abbrev pub RoundTrips : Codec → Type 0
RoundTrips codec = (j : Json) → codec.decode (codec.encode j) ≡ some j

-- the stored value is a document with the hash of `es`
pub record IsCurrent (codec : Codec) (es : ExportedService) (o : Option Text) : Type 0 where
  pub value : Text
  pub hash : Text
  pub fields : Fields
  pub stored : o ≡ some value
  pub parsed : codec.decode value ≡ some (obj fields)
  pub named : get_field hash_key fields ≡ some (str hash)
  pub hashed : hash_text codec es ≡ ok hash

module _ (codec : Codec) (es : ExportedService) where
  pub payload-IsCurrent :
      (hash : Text)
      → RoundTrips codec
      → hash_text codec es ≡ ok hash
      → IsCurrent codec es (some (codec.encode (payload hash es)))
  unfolding payload get_field
  payload-IsCurrent hash trips h = record {
    value = codec.encode (payload hash es);
    hash = hash;
    fields = field hash_key (str hash) _;
    stored = refl;
    parsed = trips (payload hash es);
    named = rw (text_eq_self hash_key) refl;
    hashed = h;
  }

  -- a current document is not rewritten
  pub outdated-IsCurrent : (o : Option Text) → IsCurrent codec es o → outdated codec es o ≡ ok false
  unfolding outdated
  outdated-IsCurrent o i =
      rw i.stored (rw (i.parsed, i.named) (rw i.hashed (rw (text_eq_self i.hash))))

  same_hash-str : (j : Json) (hash : Text) → same_hash j hash ≡ true → j ≡ str hash
  unfolding same_hash
  same_hash-str (str s) hash h = ap str ((text_eq_iff s hash).0 h)
  same_hash-str null hash h = cc
  same_hash-str (bool b) hash h = cc
  same_hash-str (num n) hash h = cc
  same_hash-str (arr l) hash h = cc
  same_hash-str (obj f) hash h = cc

  document-ok :
      (o : Option Json) (fs : Fields) → document o ≡ ok fs → (o ≡ some (obj fs)) ⊎ (fs ≡ end)
  unfolding document
  document-ok none fs h = cc
  document-ok (some null) fs h = inr (ground arith)
  document-ok (some (bool b)) fs h = cc
  document-ok (some (num n)) fs h = cc
  document-ok (some (str t)) fs h = cc
  document-ok (some (arr l)) fs h = cc
  document-ok (some (obj f)) fs h = inl (ground arith)

  compare_hash-false :
      (o : Option Json)
      → compare_hash codec es o ≡ ok false
      → (h : Text) × (o ≡ some (str h)) × (hash_text codec es ≡ ok h)
  unfolding compare_hash
  compare_hash-false none e = cc
  compare_hash-false (some stored) e = go (hash_text codec es) refl
    where
      go :
          (r : Run Text)
          → hash_text codec es ≡ r
          → (h : Text) × (some stored ≡ some (str h)) × (hash_text codec es ≡ ok h)
      go (ok h) r = elim (Bool-cases (same_hash stored h)) [
        | inl same ↦ (h, ap some (same_hash-str stored h same), r)
        | inr other ↦ absurd (ground (arith, r, other))
      ]
      go (err x) r = absurd (ground (arith, r))
      go panic r = absurd (ground (arith, r))

  compare_hash-end : ¬ (compare_hash codec es (get_field hash_key end) ≡ ok false)
  unfolding compare_hash get_field
  compare_hash-end h = cc

  -- what is not out of date is current
  pub outdated-false : (o : Option Text) → outdated codec es o ≡ ok false → IsCurrent codec es o
  unfolding outdated
  outdated-false none e = cc
  outdated-false (some value) e = go (document (codec.decode value)) refl
    where
      go : (r : Run Fields) → document (codec.decode value) ≡ r → IsCurrent codec es (some value)
      go (ok fs) r =
          let e' : compare_hash codec es (get_field hash_key fs) ≡ ok false = ground (arith, r) in
          let (h, n, hashed) = compare_hash-false (get_field hash_key fs) e' in
          elim (document-ok (codec.decode value) fs r) [
            | inl p ↦ record {
              value = value;
              hash = h;
              fields = fs;
              stored = refl;
              parsed = p;
              named = n;
              hashed = hashed;
            }
            | inr nothing ↦ absurd (compare_hash-end (rw nothing at e'))
          ]
      go (err x) r = absurd (ground (arith, r))
      go panic r = absurd (ground (arith, r))

  -- the reading of a document does not panic
  pub hash_text-safe : ¬ (hash_text codec es ≡ panic)
  unfolding hash_text
  hash_text-safe e = ground arith

  pub outdated-safe : (o : Option Text) → ¬ (outdated codec es o ≡ panic)
  unfolding outdated document compare_hash
  outdated-safe o e = ground (arith, hash_text-safe)

  -- a JSON object can be compared
  pub outdated-parsed :
      (h value : Text) (fields : Fields)
      → hash_text codec es ≡ ok h
      → codec.decode value ≡ some (obj fields)
      → (b : Bool) × (outdated codec es (some value) ≡ ok b)
  unfolding outdated document
  outdated-parsed h value fields hashed e = rw e (go (get_field hash_key fields))
    where
      go : (o : Option Json) → (b : Bool) × (compare_hash codec es o ≡ ok b)
      go none = (true, unfold compare_hash in refl)
      go (some stored) = elim (Bool-cases (same_hash stored h)) [
        | inl same ↦ (false, unfold compare_hash in rw (hashed, same) refl)
        | inr other ↦ (true, unfold compare_hash in rw (hashed, other) refl)
      ]
