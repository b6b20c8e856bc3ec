-- ===== src/Export/Ids.antt =====
-- The Id of an ExportedService: what it tells apart, and what it does not.
use mathlib.Core.List.{append_cancel_left, append_cancel_right}
use kube_service_exporter.Base.{
  ◌≡◌, refl, sym, ap, ◌∙◌, ◌↔◌, ◌⊎◌, inl, inr, Bool, true, false, ◌||◌, [], ◌∷◌, ◌++◌, append_assoc,
  arith, ◌==◌, if◌then◌else◌, Text, is_empty,
}
use kube_service_exporter.Export.{ExportedService, id}

abbrev has_dash : Text → Bool
has_dash [] = false
has_dash (c ∷ s) = c == b'-' || has_dash s

-- at the first hyphen, two texts are cut in the same way
dash-cut :
    (s s' t t' : Text)
    → has_dash s ≡ false
    → has_dash s' ≡ false
    → s ++ (b'-' ∷ t) ≡ s' ++ (b'-' ∷ t')
    → (s ≡ s') × (t ≡ t')
dash-cut [] [] t t' h h' e = (refl, ground arith)
dash-cut [] (c ∷ s') t t' h h' e = absurd (ground arith)
dash-cut (c ∷ s) [] t t' h h' e = absurd (ground arith)
dash-cut (c ∷ s) (c' ∷ s') t t' h h' e = ground (arith, dash-cut s s' t t')

-- the parts of an Id
abbrev prefix_part : ExportedService → Text
prefix_part es = if is_empty es.id_prefix then [] else es.id_prefix ++ b'-' ∷ []

abbrev cluster_part : Bool → Text → Text
cluster_part per_cluster c = if per_cluster then c ++ b'-' ∷ [] else []

abbrev name_part : ExportedService → Text
name_part es = es.namespace ++ (b'-' ∷ (es.name ++ (b'-' ∷ es.port_name)))

-- what stands in front of the namespace
abbrev front : ExportedService → Text
front es = prefix_part es ++ cluster_part es.service_per_cluster es.cluster_id

id-front : (es : ExportedService) → id es ≡ front es ++ name_part es
unfolding id
id-front es = sym (
    append_assoc (prefix_part es) (cluster_part es.service_per_cluster es.cluster_id)
      (name_part es))

-- Two exported services of one cluster, with the same prefix and the same setting of
-- service-per-cluster, and with no hyphen in their namespaces and names, have the same Id only if the
-- namespace, the name and the port name are the same.
pub id-injective :
    (es es' : ExportedService)
    → es.id_prefix ≡ es'.id_prefix
    → es.service_per_cluster ≡ es'.service_per_cluster
    → es.cluster_id ≡ es'.cluster_id
    → has_dash es.namespace ≡ false
    → has_dash es'.namespace ≡ false
    → has_dash es.name ≡ false
    → has_dash es'.name ≡ false
    → id es ≡ id es'
    → (es.namespace ≡ es'.namespace) × (es.name ≡ es'.name) × (es.port_name ≡ es'.port_name)
id-injective es es' p c k n n' m m' e =
    let same : front es ≡ front es' = cc (p, c, k) in
    let aligned : front es ++ name_part es ≡ front es ++ name_part es' =
      sym (id-front es) ∙ e ∙ id-front es' ∙ ap (λ f. f ++ name_part es') (sym same) in
    let tails = append_cancel_left (front es) (name_part es) (name_part es') aligned in
    let cut = dash-cut es.namespace es'.namespace _ _ n n' tails in
    let cut' = dash-cut es.name es'.name _ _ m m' cut.1 in (cut.0, cut'.0, cut'.1)

-- A hyphen makes Ids collide: the Service c in the namespace a-b and the Service b-c in the namespace
-- a have the same Id, whatever else they share.
pub id_collides :
    (es : ExportedService) (a b c : Text)
    → id (record es { namespace = a ++ b'-' ∷ b; name = c })
      ≡ id (record es { namespace = a; name = b ++ b'-' ∷ c })
unfolding id
id_collides es a b c = simp append_assoc

-- The ports of one Service have different Ids unless their port names are the same.
pub id-port_name :
    (es : ExportedService) (p q : Text)
    → id (record es { port_name = p }) ≡ id (record es { port_name = q })
    → p ≡ q
id-port_name es p q e =
    let tails =
      append_cancel_left (front es) _ _ (
        sym (id-front (record es { port_name = p }))
        ∙ e
        ∙ id-front (record es { port_name = q })) in
    let names = append_cancel_left es.namespace _ _ tails in
    let ports = append_cancel_left (b'-' ∷ es.name) _ _ names in
    append_cancel_left (b'-' ∷ []) p q ports

abbrev pub in_cluster : ExportedService → Text → ExportedService
in_cluster es c = record es { cluster_id = c }

cluster-of-id :
    (b : Bool) (es : ExportedService) (c d : Text)
    → cluster_part b c ++ name_part es ≡ cluster_part b d ++ name_part es
    → (b ≡ false) ⊎ (c ≡ d)
cluster-of-id false es c d e = inl refl
cluster-of-id true es c d e =
    inr (append_cancel_right c d (b'-' ∷ []) (append_cancel_right _ _ (name_part es) e))

-- A service has the same Id on two clusters exactly if it is not exported per cluster, or the
-- clusters have the same id.
pub id-cluster :
    (es : ExportedService) (c d : Text)
    → (id (in_cluster es c) ≡ id (in_cluster es d)) ↔ ((es.service_per_cluster ≡ false) ⊎ (c ≡ d))
unfolding id
id-cluster es c d = (
  λ e. cluster-of-id es.service_per_cluster es c d (append_cancel_left (prefix_part es) _ _ e),
  elim [ inl shared ↦ rw shared | inr same ↦ rw same ],
)
