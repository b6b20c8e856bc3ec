-- ===== src/Export.antt =====
-- pkg/controller/exportable_service.go: from the annotations of a Kubernetes Service to one
-- ExportedService for each of its ports.
pub mod Annotations
pub mod Build
pub mod Merge
pub mod Ports
pub mod Ids
pub mod Errors
pub mod Tests
use kube_service_exporter.Base.{
  ℕ, zero, suc, Bool, true, false, not, ◌||◌, Option, none, some, List, [], ◌∷◌, ◌++◌,
  if◌then◌else◌, length, get_elem?, Text, is_empty, text_eq,
}
use kube_service_exporter.Go.Int.{ℤ, pos}
use kube_service_exporter.Go.Strconv.{itoa, parse_int, parse_bool, is_digit}
use kube_service_exporter.Go.Run.{
  Error, Run, ok, err, panic, ◌>>=◌, or_else, no_cluster_id, bad_listen_port, bad_health_check_port,
  bad_per_cluster, bad_custom_attrs, ingress_lookup, ingress_missing, ingress_not_service,
  bad_ingress_sni,
}
use kube_service_exporter.Go.Json.{Json, null, bool, num, str, arr, obj, Fields, end}
use kube_service_exporter.Kube.{
  Service, ServicePort, annotation, load_balancer_type, node_port_type,
}
use kube_service_exporter.Util.{is_domain_name}
use Annotations.{
  exported, proxy_protocol, load_balancer_class, backend_protocol, listen_port, health_check_path,
  health_check_port, service_per_cluster, dns_name, custom_attrs, id_prefix,
  ingress_service_namespace, ingress_service_name, ingress_service_port_name, http, tcp, star,
  default_port_label, local,
}

-- `custom_attrs` is a map, which may be nil; `version` does not change
pub record ExportedService : Type 0 where
  pub cluster_id : Text
  pub namespace : Text
  pub name : Text
  pub port_name : Text
  pub port : ℤ
  pub dns_name : Text
  pub service_per_cluster : Bool
  pub health_check_path : Text
  pub health_check_port : ℤ
  pub backend_protocol : Text
  pub proxy_protocol : Bool
  pub load_balancer_class : Text
  pub load_balancer_listen_port : ℤ
  pub ingress_service_name : Text
  pub ingress_service_namespace : Text
  pub ingress_service_port_name : Text
  pub ingress_sni : Text
  pub custom_attrs : Option Fields
  pub id_prefix : Text
  pub version : ℕ

-- the string that Go reads from a map where the key is absent
abbrev or_empty : Option Text → Text
or_empty none = []
or_empty (some v) = v

-- `if val, ok := annotations[key]; ok { field = val }` over a field that is still empty
abbrev text_at : Option (List (Text × Text)) → Text → Text
text_at m key = or_empty (annotation m key)

-- a port annotation, or the value that the field has without it
pub parse_port : Error → Option Text → ℤ → Run ℤ
parse_port e none z = ok z
parse_port e (some val) z = or_else (parse_int val) (err e)

parse_flag : Option Text → Bool → Run Bool
parse_flag none b = ok b
parse_flag (some val) b = or_else (parse_bool val) (err bad_per_cluster)

-- Unmarshal into a map: an object fills it, null leaves it nil, anything else is an error
attrs_of : Option Json → Run (Option Fields)
attrs_of (some (obj fs)) = ok (some fs)
attrs_of (some null) = ok none
attrs_of _ = err bad_custom_attrs

pub is_exportable_service : Service → Bool
is_exportable_service s =
    let opted_in : Bool = elim (annotation s.annotations exported) [
      | none ↦ false
      | some val ↦ elim (parse_bool val) [ none ↦ false | some b ↦ b ]
    ] in
    if not opted_in
    then false
    else text_eq s.type load_balancer_type || text_eq s.type node_port_type

-- the struct literal of NewExportedService, and the default of the port name
base_service : Service → Text → ServicePort → ExportedService
base_service s cluster_id p = record {
  cluster_id = cluster_id;
  namespace = s.namespace;
  name = s.name;
  port_name = if is_empty p.name then itoa p.port else p.name;
  port = p.node_port;
  dns_name = [];
  service_per_cluster = true;
  health_check_path = [];
  health_check_port = p.node_port;
  backend_protocol = http;
  proxy_protocol = false;
  load_balancer_class = [];
  load_balancer_listen_port = pos 0;
  ingress_service_name = [];
  ingress_service_namespace = [];
  ingress_service_port_name = [];
  ingress_sni = [];
  custom_attrs = none;
  id_prefix = [];
  version = 1;
}

-- the index of the rune that IsDigit looks at
abbrev first_byte : Text → Run ℕ
first_byte [] = panic
first_byte (c ∷ s) = ok c

-- a defaulted port name is a number, and is replaced by a label
abbrev sni_of : ExportedService → ℕ → Text
sni_of es c =
    let label = if is_digit c then default_port_label else es.port_name in
    label ++ (b'.' ∷ (es.name ++ (b'.' ∷ (es.namespace ++ (b'.' ∷ local)))))

-- setIngressSNI: `es.PortName[0]` panics on an empty name
pub set_ingress_sni : ExportedService → Run ExportedService
set_ingress_sni es = do
  c ← first_byte es.port_name
  let sni = sni_of es c
  if not (is_domain_name sni) then err bad_ingress_sni else ok (record es { ingress_sni = sni })

-- Id
unfoldable pub id : ExportedService → Text
id es =
    let prefix = if is_empty es.id_prefix then [] else es.id_prefix ++ b'-' ∷ [] in
    let cluster = if es.service_per_cluster then es.cluster_id ++ b'-' ∷ [] else [] in
    prefix ++ (cluster ++ (es.namespace ++ (b'-' ∷ (es.name ++ (b'-' ∷ es.port_name)))))

-- MergeIngressService: the first port of that name, if there is one
unfoldable pub merge_ingress_service :
    List ServicePort → Bool → ExportedService → Option ExportedService
merge_ingress_service [] explicit es = none
merge_ingress_service (p ∷ ps) explicit es =
    let rest = merge_ingress_service ps explicit es in
    if text_eq p.name es.ingress_service_port_name
    then some (record es {
      port = p.node_port;
      health_check_port = if explicit then es.health_check_port else p.node_port;
    })
    else rest

-- what indexer.GetByKey returns
pub data Indexed : Type 0 where
  lookup_failed absent not_service : Indexed
  found : Service → Indexed

-- `_, ok := m[key]`
abbrev is_some {ℓ} : {A : Type ℓ} → Option A → Bool
is_some none = false
is_some (some a) = true

module _ (unmarshal : Text → Option Json) where
  -- with no annotation the map is empty, and not nil
  parse_attrs : Option Text → Run (Option Fields)
  unfolding attrs_of
  parse_attrs none = ok (some end)
  parse_attrs (some val) = attrs_of (unmarshal val)

  -- the rest of NewExportedService, for a Service with annotations
  annotate : Option (List (Text × Text)) → ExportedService → Run ExportedService
  unfolding parse_port parse_flag parse_attrs
  annotate m es = do
    listen ← parse_port bad_listen_port (annotation m listen_port) es.load_balancer_listen_port
    health ← parse_port bad_health_check_port (annotation m health_check_port) es.health_check_port
    per_cluster ← parse_flag (annotation m service_per_cluster) es.service_per_cluster
    attrs ← parse_attrs (annotation m custom_attrs)
    ok (record es {
      dns_name = text_at m dns_name;
      proxy_protocol = text_eq (text_at m proxy_protocol) star;
      load_balancer_class = text_at m load_balancer_class;
      backend_protocol =
          if text_eq (text_at m backend_protocol) tcp then tcp else es.backend_protocol;
      load_balancer_listen_port = listen;
      health_check_path = text_at m health_check_path;
      health_check_port = health;
      service_per_cluster = per_cluster;
      custom_attrs = attrs;
      id_prefix = text_at m id_prefix;
      ingress_service_namespace = text_at m ingress_service_namespace;
      ingress_service_name = text_at m ingress_service_name;
      ingress_service_port_name = text_at m ingress_service_port_name;
    })

  -- NewExportedService; an index out of range panics
  unfoldable pub new_exported_service : Service → Text → ℕ → Run ExportedService
  unfolding annotate base_service
  new_exported_service s cluster_id i = if is_empty cluster_id then err no_cluster_id else do
    p ← or_else (get_elem? s.ports i) panic
    let es = base_service s cluster_id p
    elim s.annotations [ none ↦ ok es | some m ↦ annotate (some m) es ]

  -- the first loop of NewExportedServicesFromKubeService, from index `i` on
  new_each : Service → Text → ℕ → ℕ → Run (List ExportedService)
  new_each s cluster_id i zero = ok []
  new_each s cluster_id i (suc left) =
      let rest = new_each s cluster_id (suc i) left in
      do es ← new_exported_service s cluster_id i; more ← rest; ok (es ∷ more)

-- one of the three annotations is missing or empty
abbrev has_no_ingress : ExportedService → Bool
has_no_ingress es =
    is_empty es.ingress_service_namespace
    || is_empty es.ingress_service_name
    || is_empty es.ingress_service_port_name

module _ (indexer : Text → Indexed) where
  -- the merge with a Service that the index holds
  merge_found : Bool → ExportedService → Indexed → Run ExportedService
  unfolding merge_ingress_service set_ingress_sni
  merge_found explicit es lookup_failed = err ingress_lookup
  merge_found explicit es absent = err ingress_missing
  merge_found explicit es not_service = err ingress_not_service
  merge_found explicit es (found svc) = elim (merge_ingress_service svc.ports explicit es) [
    | none ↦ ok es
    | some es' ↦ set_ingress_sni es'
  ]

  -- the body of the second loop
  merge_one : Bool → ExportedService → Run ExportedService
  unfolding merge_found
  merge_one explicit es =
      if has_no_ingress es
      then ok es
      else merge_found explicit es
          (indexer (es.ingress_service_namespace ++ b'/' ∷ es.ingress_service_name))

  merge_each : Bool → List ExportedService → Run (List ExportedService)
  merge_each explicit [] = ok []
  merge_each explicit (es ∷ more) =
      let rest = merge_each explicit more in
      do es' ← merge_one explicit es; more' ← rest; ok (es' ∷ more')

module _ (unmarshal : Text → Option Json) (indexer : Text → Indexed) where
  -- NewExportedServicesFromKubeService
  unfoldable pub new_exported_services : Service → Text → Run (List ExportedService)
  unfolding new_each merge_each merge_one is_exportable_service
  new_exported_services s cluster_id = if not (is_exportable_service s) then ok [] else do
    list ← new_each unmarshal s cluster_id 0 (length s.ports)
    merge_each indexer (is_some (annotation s.annotations health_check_port)) list
