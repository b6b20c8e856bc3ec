-- ===== src/ServiceWatcher/Former.antt =====
-- Which old service updateService takes for what a new one used to be.
use kube_service_exporter.Base.{
  ◌≡◌, refl, sym, ap, ◌∙◌, ◌⊎◌, inl, inr, false, Option, none, some, List, [], ◌∷◌, map, Bool-cases,
  text_eq_iff, text_eq,
}
use kube_service_exporter.Util.{string_in_slice}
use kube_service_exporter.Export.{ExportedService, id}
use kube_service_exporter.Target.WriteNodes.{In}
use kube_service_exporter.ServiceWatcher.{matching, only_one, former}

matching-some :
    (olds : List ExportedService) (es o : ExportedService)
    → matching olds es ≡ some o
    → In o olds × (id o ≡ id es)
unfolding matching
matching-some [] es o e = cc
matching-some (first ∷ olds) es o e = elim (Bool-cases (text_eq (id es) (id first))) [
  | inl same ↦
      let here : first ≡ o = some_inj (rw same at e) in
      (inl (sym here), ap id (sym here) ∙ sym ((text_eq_iff (id es) (id first)).0 same))
  | inr other ↦ let (i, h) = matching-some olds es o (rw other at e) in (inr i, h)
]
  where
    some_inj : {a b : ExportedService} → some a ≡ some b → a ≡ b
    some_inj f = cc

matching-none :
    (olds : List ExportedService) (es o : ExportedService)
    → matching olds es ≡ none
    → In o olds
    → text_eq (id es) (id o) ≡ false
unfolding matching
matching-none [] es o e i = absurd i
matching-none (first ∷ olds) es o e i = elim (Bool-cases (text_eq (id es) (id first))) [
  | inl same ↦ absurd (some-none (rw same at e))
  | inr other ↦ elim i [
    | inl here ↦ rw here other
    | inr there ↦ matching-none olds es o (rw other at e) there
  ]
]
  where
    some-none : {a : ExportedService} → some a ≡ none → ⊥
    some-none f = cc

only_one-some :
    (olds news : List ExportedService) (o : ExportedService)
    → only_one olds news ≡ some o
    → (n : ExportedService) × (olds ≡ o ∷ []) × (news ≡ n ∷ [])
only_one-some [] news o e = cc
only_one-some (a ∷ []) [] o e = cc
only_one-some (a ∷ []) (n ∷ []) o e = (n, ap (λ x. x ∷ []) (some_inj e), refl)
  where
    some_inj : {a b : ExportedService} → some a ≡ some b → a ≡ b
    some_inj f = cc
only_one-some (a ∷ []) (n ∷ m ∷ news) o e = cc
only_one-some (a ∷ b ∷ olds) news o e = cc

-- It is one of the old services. Either it has the same Id, or its Id is gone.
pub former-some :
    (olds news : List ExportedService) (es o : ExportedService)
    → In es news
    → former olds news es ≡ some o
    → In o olds × ((id o ≡ id es) ⊎ (string_in_slice (id o) (map id news) ≡ false))
unfolding former
former-some olds news es o i e = go (matching olds es) refl e
  where
    gone :
        (n : ExportedService)
        → In es (n ∷ [])
        → text_eq (id es) (id o) ≡ false
        → string_in_slice (id o) (map id (n ∷ [])) ≡ false
    gone n (inl same) other = unfold string_in_slice in rw (rw same at other) refl
    gone n (inr nothing) other = absurd nothing

    go :
        (m : Option ExportedService)
        → matching olds es ≡ m
        → elim m [ none ↦ only_one olds news | some x ↦ some x ] ≡ some o
        → In o olds × ((id o ≡ id es) ⊎ (string_in_slice (id o) (map id news) ≡ false))
    go none h f =
        let (n, p, q) = only_one-some olds news o f in
        let j : In o olds = rw p (inl refl) in
        (j, inr (rw q (gone n (rw q at i) (matching-none olds es o h j))))
    go (some x) h f = let (j, same) = matching-some olds es o (h ∙ f) in (j, inl same)
