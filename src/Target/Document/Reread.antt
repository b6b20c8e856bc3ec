-- ===== src/Target/Document/Reread.antt =====
-- What shouldUpdateKV makes of a document that writeKV has written.
use kube_service_exporter.Base.{
  ℕ, ◌≡◌, refl, sym, ◌∙◌, ◌≢◌, inl, inr, Bool, true, false, not, some, arith, ◌==◌, if◌then◌else◌,
  Bool-cases, text_eq_iff, text_eq_self, text_eq,
}
use kube_service_exporter.Go.Run.{ok}
use kube_service_exporter.Go.Strconv.{format}
use kube_service_exporter.Go.Strconv.Hex.{format-injective}
use kube_service_exporter.Go.Json.{get_field}
use kube_service_exporter.Export.{ExportedService}
use kube_service_exporter.Target.Document.{
  Codec, hash_text, outdated, document, same_hash, compare_hash, RoundTrips,
}
use kube_service_exporter.Target.Payload.{hash_key, payload}

-- two hashes are the same text only if they are the same number
text_eq-format : (m n : ℕ) → text_eq (format 16 m) (format 16 n) ≡ (m == n)
text_eq-format m n = elim (Bool-cases (text_eq (format 16 m) (format 16 n))) [
  | inl same ↦
      let e : m ≡ n = format-injective m n ((text_eq_iff (format 16 m) (format 16 n)).0 same) in
      same ∙ (ground arith)
  | inr other ↦
      let apart : m ≢ n = λ e. true-false (sym (text_eq_self (format 16 n)) ∙ (rw e at other)) in
      other ∙ (ground arith)
]
  where
    true-false : true ≡ false → ⊥
    true-false e = cc

-- A document that was written with one hash is out of date for a service with another hash, and up to date
-- for each service with the same one, given that encoding/json reads back what it wrote.
pub outdated-payload :
    (codec : Codec) (es es' : ExportedService) (h h' : ℕ)
    → RoundTrips codec
    → codec.structure_hash es ≡ some h
    → codec.structure_hash es' ≡ some h'
    → outdated codec es' (some (codec.encode (payload (format 16 h) es))) ≡ ok (not (h == h'))
unfolding outdated document compare_hash same_hash payload get_field hash_text
outdated-payload codec es es' h h' trips hashed hashed' =
    let named : text_eq hash_key hash_key ≡ true = text_eq_self hash_key in
    rw (trips (payload (format 16 h) es)) (
      rw (named)
        (rw (compare_hash, hash_text, hashed') (rw (text_eq-format h h') (by_hash (h == h')))))
  where
    by_hash : (b : Bool) → (if b then ok false else ok true) ≡ ok (not b)
    by_hash true = refl
    by_hash false = refl
