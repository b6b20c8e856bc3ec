-- ===== src/Target/Payload.antt =====
-- MarshalJSON: the document of an ExportedService. A member marked `omitempty` is left out at its
-- zero value.
use kube_service_exporter.Base.{
  zero, Bool, true, Option, none, some, if◌then◌else◌, Text, codes, is_empty,
}
use kube_service_exporter.Go.Int.{ℤ, pos}
use kube_service_exporter.Go.Strconv.{itoa}
use kube_service_exporter.Go.Json.{Json, null, bool, num, str, obj, Fields, end, field}
use kube_service_exporter.Export.{ExportedService}

unfoldable pub hash_key : Text
hash_key = codes "hash"

text_member : Text → Text → Fields → Fields
text_member k v rest = if is_empty v then rest else field k (str v) rest

bool_member : Text → Bool → Fields → Fields
bool_member k b rest = if b then field k (bool true) rest else rest

port_member : Text → ℤ → Fields → Fields
port_member k (pos zero) rest = rest
port_member k z rest = field k (num (itoa z)) rest

-- a nil map is null
attrs_value : Option Fields → Json
attrs_value none = null
attrs_value (some fs) = obj fs

-- the members behind `hash`
members : ExportedService → Fields
unfolding text_member bool_member port_member attrs_value
members es = field (codes "ClusterName") (str es.cluster_id) (
    field (codes "port") (num (itoa es.port)) (
      text_member (codes "dns_name") es.dns_name (
        bool_member (codes "service_per_cluster") es.service_per_cluster (
          text_member (codes "health_check_path") es.health_check_path (
            port_member (codes "health_check_port") es.health_check_port (
              text_member (codes "backend_protocol") es.backend_protocol (
                bool_member (codes "proxy_protocol") es.proxy_protocol (
                  text_member (codes "load_balancer_class") es.load_balancer_class (
                    port_member (codes "load_balancer_listen_port") es.load_balancer_listen_port (
                      text_member (codes "ingress_sni") es.ingress_sni
                        (field (codes "custom_attrs") (attrs_value es.custom_attrs) end)))))))))))

unfoldable pub payload : Text → ExportedService → Json
unfolding members
payload hash es = obj (field hash_key (str hash) (members es))
