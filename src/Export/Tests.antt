-- ===== src/Export/Tests.antt =====
-- Runs of the functions of exportable_service.go, after the cases of its Go tests.
use kube_service_exporter.Base.{
  ◌≡◌, refl, inl, inr, true, false, Option, none, some, List, [], ◌∷◌, map, arith, if◌then◌else◌,
  Bool-cases, All, Text, codes, lookup, text_eq,
}
use kube_service_exporter.Go.Int.{pos}
use kube_service_exporter.Go.Run.{Run, ok}
use kube_service_exporter.Go.Strconv.{parse_bool, itoa, is_digit}
use kube_service_exporter.Go.Json.{Json}
use kube_service_exporter.Kube.{
  Service, ServicePort, load_balancer_type, node_port_type, annotation,
}
use kube_service_exporter.Util.{is_domain_name}
use kube_service_exporter.Export.{
  ExportedService, is_exportable_service, id, Indexed, found, absent, new_exported_services,
  new_exported_service, merge_ingress_service,
}
use kube_service_exporter.Export.Annotations.{
  exported, service_per_cluster, health_check_port, ingress_service_namespace, ingress_service_name,
  ingress_service_port_name, http, default_port_label, local, proxy_protocol, listen_port, tcp,
  star, load_balancer_class, backend_protocol, dns_name, health_check_path, custom_attrs, id_prefix,
}
use kube_service_exporter.Go.Run.{Safe}
use kube_service_exporter.Export.Merge.{BuiltFor, new_exported_services-Safe}
use kube_service_exporter.Export.Errors.{error_of, first_failed, checks, new_exported_service-error}
use kube_service_exporter.Export.Ports.{HasInt32Ports, IndexedPorts, new_exported_services-ports}
use kube_service_exporter.Export.Ids.{id-injective}

abbrev pub no_json : Text → Option Json
no_json val = none

abbrev pub empty_index : Text → Indexed
empty_index key = absent

abbrev pub web_port : ServicePort
web_port = record { name = codes "http"; port = pos 8080; node_port = pos 32046 }

abbrev pub web : Service
web = record {
  namespace = codes "default";
  name = codes "web";
  annotations = some ((exported, codes "true") ∷ (service_per_cluster, codes "false") ∷ []);
  ports = web_port ∷ record web_port { name = [] } ∷ [];
  type = load_balancer_type;
}

abbrev pub gateway : Service
gateway = record web {
  name = codes "gw";
  ports = record { name = codes "https"; port = pos 443; node_port = pos 32443 } ∷ [];
}

abbrev pub behind_gateway : Service
behind_gateway = record web {
  annotations = some (
      (exported, codes "1")
      ∷ (ingress_service_namespace, codes "default")
      ∷ (ingress_service_name, codes "gw")
      ∷ (ingress_service_port_name, codes "https")
      ∷ []);
}

abbrev pub gateway_index : Text → Indexed
gateway_index key = if text_eq key (codes "default/gw") then found gateway else absent

abbrev ids : Run (List ExportedService) → List Text
ids (ok l) = map id l
ids _ = []

abbrev snis : Run (List ExportedService) → List Text
snis (ok l) = map (λ es. es.ingress_sni) l
snis _ = []

-- what a run of the functions computes with
unfoldable pub runs : Unit {0}
unfolding new_exported_services new_exported_service id annotation lookup text_eq parse_bool itoa
    exported service_per_cluster load_balancer_type node_port_type health_check_port
    ingress_service_namespace ingress_service_name ingress_service_port_name http default_port_label
    local proxy_protocol listen_port tcp star load_balancer_class backend_protocol dns_name
    health_check_path custom_attrs id_prefix is_domain_name merge_ingress_service is_digit
runs = tt

web-ids :
    ids (new_exported_services no_json empty_index web (codes "c1"))
    ≡ codes "default-web-http" ∷ codes "default-web-8080" ∷ []
unfolding runs
web-ids = refl

behind_gateway-snis :
    snis (new_exported_services no_json gateway_index behind_gateway (codes "c1"))
    ≡ codes "http.web.default.local" ∷ codes "default.web.default.local" ∷ []
unfolding runs
behind_gateway-snis = refl

new_exported_services-Safe_example :
    Safe
      (BuiltFor no_json gateway_index web (codes "c1") (is_exportable_service web))
      (new_exported_services no_json gateway_index web (codes "c1"))
new_exported_services-Safe_example =
    new_exported_services-Safe no_json gateway_index web (codes "c1")

-- the index has the gateway only
gateway_index-ports : (key : Text) → IndexedPorts (gateway_index key)
gateway_index-ports key = elim (Bool-cases (text_eq key (codes "default/gw"))) [
  | inl here ↦ rw here (omega arith, tt)
  | inr other ↦ rw other tt
]

new_exported_services-ports_example :
    Safe
      (All HasInt32Ports)
      (new_exported_services no_json gateway_index behind_gateway (codes "c1"))
new_exported_services-ports_example =
    new_exported_services-ports gateway_index gateway_index-ports no_json behind_gateway
      (codes "c1") (omega arith, (omega arith, tt))

new_exported_service-error_example :
    error_of (new_exported_service no_json web (codes "c1") 1)
    ≡ first_failed (checks no_json web (codes "c1"))
new_exported_service-error_example =
    new_exported_service-error no_json web (codes "c1") 1 (omega arith)

-- an exported service, to compare with others
abbrev some_service : ExportedService
some_service = record {
  cluster_id = codes "c1";
  namespace = codes "default";
  name = codes "web";
  port_name = codes "http";
  port = pos 32046;
  dns_name = [];
  service_per_cluster = true;
  health_check_path = [];
  health_check_port = pos 32046;
  backend_protocol = codes "http";
  proxy_protocol = false;
  load_balancer_class = [];
  load_balancer_listen_port = pos 0;
  ingress_service_name = [];
  ingress_service_namespace = [];
  ingress_service_port_name = [];
  ingress_sni = [];
  custom_attrs = none;
  id_prefix = codes "edge";
  version = 1;
}

id-injective_example :
    (codes "default" ≡ codes "default")
    × (codes "web" ≡ codes "web")
    × (codes "http" ≡ codes "http")
unfolding id
id-injective_example =
    id-injective some_service (record some_service { port = pos 1 }) refl refl refl refl refl refl
      refl refl
