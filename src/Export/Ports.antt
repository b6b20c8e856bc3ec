-- ===== src/Export/Ports.antt =====
-- The ports of an exported service are 32-bit integers.
use kube_service_exporter.Base.{
  ℕ, zero, suc, ◌≡◌, refl, sym, inl, inr, Bool, true, false, not, Option, none, some, List, [], ◌∷◌,
  ◌++◌, arith, if◌then◌else◌, Bool-cases, length, get_elem?, All, Text, is_empty, text_eq,
}
use kube_service_exporter.Go.Run.{
  Yields, yields, fails_instead, panics_instead, Yields-bind, Safe-Yields, Error, Run, ok, err,
  panic, ◌>>=◌, or_else, Safe, no_cluster_id, bad_listen_port, bad_health_check_port,
  ingress_lookup, ingress_missing, ingress_not_service, bad_ingress_sni,
}
use kube_service_exporter.Go.Int.{ℤ, InInt32}
use kube_service_exporter.Go.Strconv.{parse_int}
use kube_service_exporter.Go.Strconv.Round.{parse_int-InInt32}
use kube_service_exporter.Go.Json.{Json}
use kube_service_exporter.Kube.{Service, ServicePort, annotation}
use kube_service_exporter.Util.{is_domain_name}
use kube_service_exporter.Export.{
  ExportedService, parse_port, parse_flag, parse_attrs, base_service, annotate,
  new_exported_service, new_each, Indexed, lookup_failed, absent, not_service, found,
  merge_ingress_service, set_ingress_sni, merge_found, merge_one, merge_each, new_exported_services,
  is_exportable_service, is_some, first_byte, has_no_ingress, sni_of,
}
use kube_service_exporter.Export.Annotations.{
  listen_port, health_check_port, service_per_cluster, custom_attrs,
}
use kube_service_exporter.Export.Merge.{new_exported_services-Safe}

abbrev pub HasInt32Ports : ExportedService → Type 0
HasInt32Ports es =
    InInt32 es.port × InInt32 es.health_check_port × InInt32 es.load_balancer_listen_port

-- the node ports of a Service, which Kubernetes keeps in 32 bits
abbrev pub NodePorts : List ServicePort → Type 0
NodePorts ports = All (λ p. InInt32 p.node_port) ports

-- a Service that the index may return
abbrev pub IndexedPorts : Indexed → Type 0
IndexedPorts (found svc) = NodePorts svc.ports
IndexedPorts _ = Unit

get_elem?-All :
    {A : Type 0} (P : A → Type 0) (l : List A) (i : ℕ) (a : A)
    → All P l
    → get_elem? l i ≡ some a
    → P a
get_elem?-All P [] i a h e = cc
get_elem?-All P (x ∷ l) zero a h e = rw (sym (some_inj e)) h.0
  where
    some_inj : some x ≡ some a → x ≡ a
    some_inj e = cc
get_elem?-All P (x ∷ l) (suc i) a h e = get_elem?-All P l i a h.1 e

parse_port-InInt32 :
    (e : Error) (o : Option Text) (z : ℤ) → InInt32 z → Yields InInt32 (parse_port e o z)
unfolding parse_port
parse_port-InInt32 e none z h = yields h
parse_port-InInt32 e (some val) z h = go (parse_int val) refl
  where
    go : (r : Option ℤ) → parse_int val ≡ r → Yields InInt32 (or_else r (err e))
    go none h = fails_instead e
    go (some r) h = yields (parse_int-InInt32 val r h)

any : {A : Type 0} (r : Run A) → Yields (λ a. Unit {0}) r
any (ok a) = yields tt
any (err e) = fails_instead e
any panic = panics_instead

module _ (unmarshal : Text → Option Json) where
  annotate-ports :
      (m : Option (List (Text × Text))) (es : ExportedService)
      → HasInt32Ports es
      → Yields HasInt32Ports (annotate unmarshal m es)
  unfolding annotate
  annotate-ports m es (port, health_default, listen_default) =
      Yields-bind
        (parse_port-InInt32 bad_listen_port (annotation m listen_port) es.load_balancer_listen_port
          listen_default)
        λ listen l.
          Yields-bind
            (parse_port-InInt32 bad_health_check_port (annotation m health_check_port)
              es.health_check_port health_default)
            λ health h.
              Yields-bind
                (any (parse_flag (annotation m service_per_cluster) es.service_per_cluster))
                λ per_cluster _.
                  Yields-bind (any (parse_attrs unmarshal (annotation m custom_attrs)))
                    λ attrs _. yields (port, h, l)

  module _ (s : Service) (cluster_id : Text) (in_range : NodePorts s.ports) where
    new_exported_service-ports :
        (i : ℕ) → Yields HasInt32Ports (new_exported_service unmarshal s cluster_id i)
    unfolding new_exported_service base_service
    new_exported_service-ports i = elim (Bool-cases (is_empty cluster_id)) [
      | inl missing ↦ rw missing (fails_instead no_cluster_id)
      | inr given ↦ rw given (go (get_elem? s.ports i) refl)
    ]
      where
        with_annotations :
            (m : Option (List (Text × Text))) (p : ServicePort)
            → InInt32 p.node_port
            → Yields HasInt32Ports (elim m [
              | none ↦ ok (base_service s cluster_id p)
              | some m' ↦ annotate unmarshal (some m') (base_service s cluster_id p)
            ])
        with_annotations none p h = yields (h, h, omega arith)
        with_annotations (some m) p h =
            annotate-ports (some m) (base_service s cluster_id p) (h, h, omega arith)

        go :
            (o : Option ServicePort)
            → get_elem? s.ports i ≡ o
            → Yields HasInt32Ports (
                or_else o panic >>= λ p. elim s.annotations [
                  | none ↦ ok (base_service s cluster_id p)
                  | some m' ↦ annotate unmarshal (some m') (base_service s cluster_id p)
                ])
        go none e = panics_instead
        go (some p) e =
            with_annotations s.annotations p
              (get_elem?-All (λ q. InInt32 q.node_port) s.ports i p in_range e)

    new_each-ports :
        (i left : ℕ) → Yields (All HasInt32Ports) (new_each unmarshal s cluster_id i left)
    unfolding new_each
    new_each-ports i zero = yields tt
    new_each-ports i (suc left) =
        Yields-bind (new_exported_service-ports i)
          λ es h. Yields-bind (new_each-ports (suc i) left) λ more hs. yields (h, hs)

-- the merge takes a node port of the other Service
merge-ports :
    (ports : List ServicePort) (explicit : Bool) (es es' : ExportedService)
    → NodePorts ports
    → HasInt32Ports es
    → merge_ingress_service ports explicit es ≡ some es'
    → HasInt32Ports es'
unfolding merge_ingress_service
merge-ports [] explicit es es' ranges h e = cc
merge-ports (p ∷ ps) explicit es es' ranges (port, health, listen) e =
    elim (Bool-cases (text_eq p.name es.ingress_service_port_name)) [
      | inl here ↦ rw (sym (some_inj (rw here at e))) (ranges.0, merged_health explicit, listen)
      | inr other ↦ merge-ports ps explicit es es' ranges.1 (port, health, listen) (rw other at e)
    ]
  where
    some_inj : {a b : ExportedService} → some a ≡ some b → a ≡ b
    some_inj e = cc

    merged_health : (b : Bool) → InInt32 (if b then es.health_check_port else p.node_port)
    merged_health true = health
    merged_health false = ranges.0

set_ingress_sni-ports :
    (es : ExportedService) → HasInt32Ports es → Yields HasInt32Ports (set_ingress_sni es)
unfolding set_ingress_sni
set_ingress_sni-ports es h = Yields-bind (any (first_byte es.port_name)) λ c _.
    elim (Bool-cases (not (is_domain_name (sni_of es c)))) [
      | inl bad ↦ rw bad (fails_instead bad_ingress_sni)
      | inr good ↦ rw good (yields h)
    ]

module _ (indexer : Text → Indexed) (in_range : (key : Text) → IndexedPorts (indexer key)) where
  merge_found-ports :
      (explicit : Bool) (es : ExportedService) (i : Indexed)
      → IndexedPorts i
      → HasInt32Ports es
      → Yields HasInt32Ports (merge_found indexer explicit es i)
  unfolding merge_found
  merge_found-ports explicit es lookup_failed r h = fails_instead ingress_lookup
  merge_found-ports explicit es absent r h = fails_instead ingress_missing
  merge_found-ports explicit es not_service r h = fails_instead ingress_not_service
  merge_found-ports explicit es (found svc) r h =
      go (merge_ingress_service svc.ports explicit es) refl
    where
      go :
          (o : Option ExportedService)
          → merge_ingress_service svc.ports explicit es ≡ o
          → Yields HasInt32Ports (elim o [ none ↦ ok es | some es' ↦ set_ingress_sni es' ])
      go none e = yields h
      go (some es') e = set_ingress_sni-ports es' (merge-ports svc.ports explicit es es' r h e)

  merge_one-ports :
      (explicit : Bool) (es : ExportedService)
      → HasInt32Ports es
      → Yields HasInt32Ports (merge_one indexer explicit es)
  unfolding merge_one
  merge_one-ports explicit es h = elim (Bool-cases (has_no_ingress es)) [
    | inl apart ↦ rw apart (yields h)
    | inr behind ↦
        let key = es.ingress_service_namespace ++ b'/' ∷ es.ingress_service_name in
        rw behind (merge_found-ports explicit es (indexer key) (in_range key) h)
  ]

  merge_each-ports :
      (explicit : Bool) (l : List ExportedService)
      → All HasInt32Ports l
      → Yields (All HasInt32Ports) (merge_each indexer explicit l)
  unfolding merge_each
  merge_each-ports explicit [] h = yields tt
  merge_each-ports explicit (es ∷ more) h =
      Yields-bind (merge_one-ports explicit es h.0)
        λ es' p. Yields-bind (merge_each-ports explicit more h.1) λ more' ps. yields (p, ps)

  -- Where NewExportedServicesFromKubeService returns no error, the port, the health check port and the
  -- listen port of each exported service are 32-bit integers, given that the node ports of the Service
  -- and of every Service of the index are: no port that an annotation gives is out of that range.
  pub new_exported_services-ports :
      (unmarshal : Text → Option Json) (s : Service) (cluster_id : Text)
      → NodePorts s.ports
      → Safe (All HasInt32Ports) (new_exported_services unmarshal indexer s cluster_id)
  unfolding new_exported_services
  new_exported_services-ports unmarshal s cluster_id ranges =
      Safe-Yields (new_exported_services-Safe unmarshal indexer s cluster_id)
        (elim (Bool-cases (not (is_exportable_service s))) [
          | inl private ↦ rw private (yields tt)
          | inr exported ↦ rw exported (
              Yields-bind (new_each-ports unmarshal s cluster_id ranges 0 (length s.ports))
                λ l h. merge_each-ports (is_some (annotation s.annotations health_check_port)) l h)
        ])
