-- ===== src/Export/Merge.antt =====
-- What NewExportedServicesFromKubeService returns: the two loops.
use kube_service_exporter.Base.{
  ℕ, suc, ◌≡◌, refl, sym, ◌∙◌, inl, inr, Bool, true, false, not, Option, none, some, List, [], ◌∷◌,
  ◌++◌, append_assoc, arith, if◌then◌else◌, Bool-cases, length, get_elem?, length-append,
  get_elem?-append, All₂, Text, is_empty, text_eq,
}
use kube_service_exporter.Go.Run.{
  ok, Safe, returns, fails, Safe-bind, Safe-map, Safe-if, ingress_lookup, ingress_missing,
  ingress_not_service, bad_ingress_sni,
}
use kube_service_exporter.Go.Int.{ℤ}
use kube_service_exporter.Go.Json.{Json}
use kube_service_exporter.Kube.{Service, ServicePort, annotation}
use kube_service_exporter.Util.{is_domain_name}
use kube_service_exporter.Export.{
  ExportedService, is_exportable_service, first_byte, sni_of, has_no_ingress, set_ingress_sni,
  merge_ingress_service, Indexed, lookup_failed, absent, not_service, found, is_some, new_each,
  merge_found, merge_one, merge_each, new_exported_services,
}
use kube_service_exporter.Export.Annotations.{health_check_port}
use kube_service_exporter.Export.Build.{HealthPort, Built, new_exported_service-Safe}

-- what setIngressSNI changes: the field only, to a domain name
abbrev SniSet : ExportedService → ExportedService → Type 0
SniSet es es' = (t : Text) × (es' ≡ record es { ingress_sni = t }) × (is_domain_name t ≡ true)

named-first : (t : Text) → is_empty t ≡ false → (c : ℕ) × (first_byte t ≡ ok c)
named-first [] h = cc
named-first (c ∷ t) h = (c, refl)

not-false : (b : Bool) → not b ≡ false → b ≡ true
not-false b h = ground arith

set_ingress_sni-Safe :
    (es : ExportedService) → is_empty es.port_name ≡ false → Safe (SniSet es) (set_ingress_sni es)
unfolding set_ingress_sni
set_ingress_sni-Safe es h =
    let (c, e) = named-first es.port_name h in
    rw e (
      Safe-if (not (is_domain_name (sni_of es c))) (λ _. fails bad_ingress_sni)
        (λ v. returns (sni_of es c, refl, not-false _ v)))

-- what a merge with an ingress Service changes: the port, and the health check port with it unless
-- that was set explicitly
abbrev Merged : Bool → ExportedService → ExportedService → Type 0
Merged explicit es es' =
    (z : ℤ) × (es'
      ≡ record es { port = z; health_check_port = if explicit then es.health_check_port else z })

merge_ingress_service-Merged :
    (ps : List ServicePort) (explicit : Bool) (es es' : ExportedService)
    → merge_ingress_service ps explicit es ≡ some es'
    → Merged explicit es es'
unfolding merge_ingress_service
merge_ingress_service-Merged [] explicit es es' h = cc
merge_ingress_service-Merged (p ∷ ps) explicit es es' h =
    elim (Bool-cases (text_eq p.name es.ingress_service_port_name)) [
      | inl same ↦ (p.node_port, ground arith)
      | inr other ↦ merge_ingress_service-Merged ps explicit es es' (ground arith)
    ]

module _ (s : Service) (cluster_id : Text) (p : ServicePort) where
  abbrev explicit : Bool
  explicit = is_some (annotation s.annotations health_check_port)

  HealthPort-Merged :
      (o : Option Text) (es : ExportedService) (z : ℤ)
      → HealthPort o es
      → HealthPort o (record es {
        port = z;
        health_check_port = if is_some o then es.health_check_port else z;
      })
  HealthPort-Merged none es z h = refl
  HealthPort-Merged (some val) es z h = h

  Merged-Built :
      (es es' : ExportedService)
      → Built s cluster_id p es
      → Merged explicit es es'
      → Built s cluster_id p es'
  Merged-Built es es' b (z, e) = rw e (record {
    names = record {
      cluster = b.names.cluster;
      namespace = b.names.namespace;
      name = b.names.name;
      port_name = b.names.port_name;
      named = b.names.named;
    };
    sni = b.sni;
    health = HealthPort-Merged (annotation s.annotations health_check_port) es z b.health;
  })

  HealthPort-sni :
      (o : Option Text) (es : ExportedService) (t : Text)
      → HealthPort o es
      → HealthPort o (record es { ingress_sni = t })
  HealthPort-sni none es t h = h
  HealthPort-sni (some val) es t h = h

  SniSet-Built :
      (es es' : ExportedService)
      → Built s cluster_id p es
      → SniSet es es'
      → Built s cluster_id p es'
  SniSet-Built es es' b (t, e, v) = rw e (record {
    names = record {
      cluster = b.names.cluster;
      namespace = b.names.namespace;
      name = b.names.name;
      port_name = b.names.port_name;
      named = b.names.named;
    };
    sni = inr v;
    health = HealthPort-sni (annotation s.annotations health_check_port) es t b.health;
  })

  module _ (indexer : Text → Indexed) where
    merge_found-Safe :
        (es : ExportedService) (found_at : Indexed)
        → Built s cluster_id p es
        → Safe (Built s cluster_id p) (merge_found indexer explicit es found_at)
    unfolding merge_found
    merge_found-Safe es lookup_failed b = fails ingress_lookup
    merge_found-Safe es absent b = fails ingress_missing
    merge_found-Safe es not_service b = fails ingress_not_service
    merge_found-Safe es (found svc) b = go (merge_ingress_service svc.ports explicit es) refl
      where
        go :
            (o : Option ExportedService)
            → merge_ingress_service svc.ports explicit es ≡ o
            → Safe (Built s cluster_id p) (elim o [ none ↦ ok es | some es' ↦ set_ingress_sni es' ])
        go none e = returns b
        go (some es') e =
            let b' =
              Merged-Built es es' b (merge_ingress_service-Merged svc.ports explicit es es' e) in
            Safe-map (set_ingress_sni-Safe es' b'.names.named) λ es'' c. SniSet-Built es' es'' b' c

    merge_one-Safe :
        (es : ExportedService)
        → Built s cluster_id p es
        → Safe (Built s cluster_id p) (merge_one indexer explicit es)
    unfolding merge_one
    merge_one-Safe es b =
        let key = es.ingress_service_namespace ++ b'/' ∷ es.ingress_service_name in
        Safe-if (has_no_ingress es) (λ _. returns b) (λ _. merge_found-Safe es (indexer key) b)

module _ (unmarshal : Text → Option Json) (indexer : Text → Indexed) (s : Service)
    (cluster_id : Text) where
  -- a port further on stands behind a longer prefix
  snoc-split :
      (before ps : List ServicePort) (p : ServicePort)
      → s.ports ≡ before ++ p ∷ ps
      → s.ports ≡ (before ++ p ∷ []) ++ ps
  snoc-split before ps p e = e ∙ sym (append_assoc before (p ∷ []) ps)

  new_each-Safe :
      (before ps : List ServicePort) (i : ℕ)
      → s.ports ≡ before ++ ps
      → length before ≡ i
      → Safe (All₂ (Built s cluster_id) ps) (new_each unmarshal s cluster_id i (length ps))
  unfolding new_each
  new_each-Safe before [] i e n = returns tt
  new_each-Safe before (p ∷ ps) i e n =
      let here : get_elem? s.ports i ≡ some p = rw (e, ← n) (get_elem?-append before ps p) in
      let next : length (before ++ p ∷ []) ≡ suc i =
        omega (arith, length-append before (p ∷ []), n) in
      Safe-bind (new_exported_service-Safe unmarshal s cluster_id i p here) λ es b.
        Safe-bind (new_each-Safe (before ++ p ∷ []) ps (suc i) (snoc-split before ps p e) next)
          λ more bs. returns {a = es ∷ more} (b, bs)

  merge_each-Safe :
      (ps : List ServicePort) (l : List ExportedService)
      → All₂ (Built s cluster_id) ps l
      → Safe
          (All₂ (Built s cluster_id) ps)
          (merge_each indexer (is_some (annotation s.annotations health_check_port)) l)
  unfolding merge_each
  merge_each-Safe [] [] b = returns tt
  merge_each-Safe (p ∷ ps) (es ∷ l) b =
      Safe-bind (merge_one-Safe s cluster_id p indexer es b.0)
        λ es' b'. Safe-bind (merge_each-Safe ps l b.1) λ more bs. returns {a = es' ∷ more} (b', bs)
  merge_each-Safe [] (es ∷ l) b = absurd b
  merge_each-Safe (p ∷ ps) [] b = absurd b

  -- what a call returns for a Service that is exportable, and for one that is not
  abbrev pub BuiltFor : Bool → List ExportedService → Type 0
  BuiltFor true l = All₂ (Built s cluster_id) s.ports l
  BuiltFor false l = l ≡ []

  -- NewExportedServicesFromKubeService never panics. Where it returns no error, a Service that is not
  -- exportable gives no exported service, and any other gives one for each port, in order: it has the
  -- cluster, the Service's namespace and name, and the port's name or number, never empty; its
  -- ingress_sni is empty or a domain name; and its health check port is the one of the annotation or,
  -- without one, the port itself, whether or not an ingress Service was merged in.
  pub new_exported_services-Safe :
      Safe
        (BuiltFor (is_exportable_service s))
        (new_exported_services unmarshal indexer s cluster_id)
  unfolding new_exported_services
  new_exported_services-Safe = go (is_exportable_service s) refl
    where
      go :
          (b : Bool)
          → is_exportable_service s ≡ b
          → Safe (BuiltFor b) (new_exported_services unmarshal indexer s cluster_id)
      go false e = rw (e, new_exported_services) (returns refl)
      go true e =
          rw (e, new_exported_services)
            (Safe-bind (new_each-Safe [] s.ports 0 refl refl) λ l b. merge_each-Safe s.ports l b)
