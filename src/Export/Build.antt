-- ===== src/Export/Build.antt =====
-- What NewExportedService returns for a port of a Service: the names of the Service, a port name that
-- is not empty, no ingress_sni, and the health check port that the annotation or the default gives.
use kube_service_exporter.Base.{
  ℕ, ◌≡◌, refl, ◌∙◌, ◌⊎◌, inl, inr, Bool, true, false, Option, none, some, List, [], arith,
  if◌then◌else◌, get_elem?, Text, is_empty,
}
use kube_service_exporter.Go.Run.{
  Error, ok, err, or_else, Safe, returns, fails, Safe-bind, Safe-map, Safe-if, no_cluster_id,
  bad_listen_port, bad_health_check_port, bad_per_cluster, bad_custom_attrs,
}
use kube_service_exporter.Go.Int.{ℤ}
use kube_service_exporter.Go.Strconv.{itoa, parse_int, parse_bool}
use kube_service_exporter.Go.Strconv.Round.{itoa-head}
use kube_service_exporter.Go.Json.{Json, null, bool, num, str, arr, obj}
use kube_service_exporter.Kube.{Service, ServicePort, annotation}
use kube_service_exporter.Util.{is_domain_name}
use kube_service_exporter.Export.{
  ExportedService, parse_port, parse_flag, attrs_of, parse_attrs, base_service, annotate,
  new_exported_service,
}
use kube_service_exporter.Export.Annotations.{
  health_check_port, custom_attrs, listen_port, service_per_cluster,
}

-- the name of a port: its own, or its number
abbrev pub port_label : ServicePort → Text
port_label p = if is_empty p.name then itoa p.port else p.name

-- `es` stands for the port `p` of the Service
pub record Names (s : Service) (cluster_id : Text) (p : ServicePort) (es : ExportedService)
    : Type 0 where
  pub cluster : es.cluster_id ≡ cluster_id
  pub namespace : es.namespace ≡ s.namespace
  pub name : es.name ≡ s.name
  pub port_name : es.port_name ≡ port_label p
  pub named : is_empty es.port_name ≡ false

-- an ingress_sni is a domain name
abbrev pub SniIsValid : ExportedService → Type 0
SniIsValid es = (es.ingress_sni ≡ []) ⊎ (is_domain_name es.ingress_sni ≡ true)

-- the health check port: the annotation's, or else the port itself
abbrev pub HealthPort : Option Text → ExportedService → Type 0
HealthPort none es = es.health_check_port ≡ es.port
HealthPort (some val) es = parse_int val ≡ some es.health_check_port

-- what every exported service has
pub record Built (s : Service) (cluster_id : Text) (p : ServicePort) (es : ExportedService)
    : Type 0 where
  pub names : Names s cluster_id p es
  pub sni : SniIsValid es
  pub health : HealthPort (annotation s.annotations health_check_port) es

port_label-named : (p : ServicePort) → is_empty (port_label p) ≡ false
port_label-named p = let (c, s, e) = itoa-head p.port in ground (arith, e)

base_service-Built :
    (s : Service) (cluster_id : Text) (p : ServicePort)
    → annotation s.annotations health_check_port ≡ none
    → Built s cluster_id p (base_service s cluster_id p)
unfolding base_service
base_service-Built s cluster_id p e = record {
  names = record {
    cluster = refl;
    namespace = refl;
    name = refl;
    port_name = refl;
    named = port_label-named p;
  };
  sni = inl refl;
  health = rw e refl;
}

-- what `annotate` leaves, and what it does to the health check port
record Annotated (m : Option (List (Text × Text))) (es es' : ExportedService) : Type 0 where
  cluster : es'.cluster_id ≡ es.cluster_id
  namespace : es'.namespace ≡ es.namespace
  name : es'.name ≡ es.name
  port_name : es'.port_name ≡ es.port_name
  sni : es'.ingress_sni ≡ es.ingress_sni
  health : es.health_check_port ≡ es.port → HealthPort (annotation m health_check_port) es'

parse_port-Safe :
    (e : Error) (o : Option Text) (z : ℤ)
    → Safe
        (λ r. ((o ≡ none) × (r ≡ z)) ⊎ ((val : Text) × (o ≡ some val) × (parse_int val ≡ some r)))
        (parse_port e o z)
unfolding parse_port
parse_port-Safe e none z = returns (inl (refl, refl))
parse_port-Safe e (some val) z = go (parse_int val) refl
  where
    go :
        (r : Option ℤ)
        → parse_int val ≡ r
        → Safe
            (λ r.
              ((some val ≡ none) × (r ≡ z))
              ⊎ ((v : Text) × (some val ≡ some v) × (parse_int v ≡ some r)))
            (or_else r (err e))
    go none h = fails e
    go (some r) h = returns (inr (val, refl, h))

parse_flag-Safe : (o : Option Text) (b : Bool) → Safe (λ r. Unit {0}) (parse_flag o b)
unfolding parse_flag
parse_flag-Safe none b = returns tt
parse_flag-Safe (some val) b = go (parse_bool val)
  where
    go : (r : Option Bool) → Safe (λ r. Unit {0}) (or_else r (err bad_per_cluster))
    go none = fails bad_per_cluster
    go (some r) = returns tt

attrs_of-Safe : (o : Option Json) → Safe (λ r. Unit {0}) (attrs_of o)
unfolding attrs_of
attrs_of-Safe none = fails bad_custom_attrs
attrs_of-Safe (some null) = returns tt
attrs_of-Safe (some (bool b)) = fails bad_custom_attrs
attrs_of-Safe (some (num n)) = fails bad_custom_attrs
attrs_of-Safe (some (str t)) = fails bad_custom_attrs
attrs_of-Safe (some (arr l)) = fails bad_custom_attrs
attrs_of-Safe (some (obj f)) = returns tt

HealthPort-parsed :
    (o : Option Text) (z : ℤ) (es es' : ExportedService)
    → ((o ≡ none) × (es'.health_check_port ≡ z))
      ⊎ ((val : Text) × (o ≡ some val) × (parse_int val ≡ some es'.health_check_port))
    → z ≡ es'.port
    → HealthPort o es'
HealthPort-parsed none z es es' (inl (e, h)) p = h ∙ p
HealthPort-parsed (some val) z es es' (inl (e, h)) p = cc
HealthPort-parsed none z es es' (inr (val, e, h)) p = cc
HealthPort-parsed (some val') z es es' (inr (val, e, h)) p = ground (arith, h)

module _ (unmarshal : Text → Option Json) where
  parse_attrs-Safe : (o : Option Text) → Safe (λ r. Unit {0}) (parse_attrs unmarshal o)
  unfolding parse_attrs
  parse_attrs-Safe none = returns tt
  parse_attrs-Safe (some val) = attrs_of-Safe (unmarshal val)

  annotate-Safe :
      (m : Option (List (Text × Text))) (es : ExportedService)
      → Safe (Annotated m es) (annotate unmarshal m es)
  unfolding annotate
  annotate-Safe m es =
      let health_default = es.health_check_port in
      Safe-bind
        (parse_port-Safe bad_listen_port (annotation m listen_port) es.load_balancer_listen_port)
        λ listen _.
          Safe-bind
            (parse_port-Safe bad_health_check_port (annotation m health_check_port)
              es.health_check_port)
            λ health h.
              Safe-bind (parse_flag-Safe (annotation m service_per_cluster) es.service_per_cluster)
                λ per_cluster _. Safe-bind (parse_attrs-Safe (annotation m custom_attrs)) λ attrs _.
                  returns (record {
                    cluster = refl;
                    namespace = refl;
                    name = refl;
                    port_name = refl;
                    sni = refl;
                    health = HealthPort-parsed _ es.health_check_port es _ h;
                  })

  Annotated-Built :
      (s : Service) (cluster_id : Text) (p : ServicePort) (es : ExportedService)
      → Annotated s.annotations (base_service s cluster_id p) es
      → Built s cluster_id p es
  unfolding base_service
  Annotated-Built s cluster_id p es a = record {
    names = record {
      cluster = a.cluster;
      namespace = a.namespace;
      name = a.name;
      port_name = a.port_name;
      named = rw a.port_name (port_label-named p);
    };
    sni = inl a.sni;
    health = a.health refl;
  }

  pub new_exported_service-Safe :
      (s : Service) (cluster_id : Text) (i : ℕ) (p : ServicePort)
      → get_elem? s.ports i ≡ some p
      → Safe (Built s cluster_id p) (new_exported_service unmarshal s cluster_id i)
  unfolding new_exported_service annotation
  new_exported_service-Safe s cluster_id i p e =
      Safe-if (is_empty cluster_id) (λ _. fails no_cluster_id) λ _. rw e (go s.annotations refl)
    where
      go :
          (m : Option (List (Text × Text)))
          → s.annotations ≡ m
          → Safe (Built s cluster_id p) (elim m [
            | none ↦ ok (base_service s cluster_id p)
            | some m' ↦ annotate unmarshal (some m') (base_service s cluster_id p)
          ])
      go none h = returns (base_service-Built s cluster_id p (rw h refl))
      go (some m) h =
          Safe-map (annotate-Safe (some m) (base_service s cluster_id p))
            λ es a. Annotated-Built s cluster_id p es (rw h a)
