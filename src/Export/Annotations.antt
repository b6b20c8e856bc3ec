-- ===== src/Export/Annotations.antt =====
-- The names of the annotations, and the other string constants, of
-- pkg/controller/exportable_service.go.
use kube_service_exporter.Base.{Text, codes}

unfoldable pub exported : Text
exported = codes "kube-service-exporter.github.com/exported"

unfoldable pub proxy_protocol : Text
proxy_protocol = codes "kube-service-exporter.github.com/load-balancer-proxy-protocol"

unfoldable pub load_balancer_class : Text
load_balancer_class = codes "kube-service-exporter.github.com/load-balancer-class"

unfoldable pub backend_protocol : Text
backend_protocol = codes "kube-service-exporter.github.com/load-balancer-backend-protocol"

unfoldable pub listen_port : Text
listen_port = codes "kube-service-exporter.github.com/load-balancer-listen-port"

unfoldable pub health_check_path : Text
health_check_path = codes "kube-service-exporter.github.com/load-balancer-health-check-path"

unfoldable pub health_check_port : Text
health_check_port = codes "kube-service-exporter.github.com/load-balancer-health-check-port"

unfoldable pub service_per_cluster : Text
service_per_cluster = codes "kube-service-exporter.github.com/load-balancer-service-per-cluster"

unfoldable pub dns_name : Text
dns_name = codes "kube-service-exporter.github.com/load-balancer-dns-name"

unfoldable pub custom_attrs : Text
custom_attrs = codes "kube-service-exporter.github.com/custom-attrs"

unfoldable pub id_prefix : Text
id_prefix = codes "kube-service-exporter.github.com/id-prefix"

unfoldable pub ingress_service_namespace : Text
ingress_service_namespace = codes "kube-service-exporter.github.com/ingress-service-namespace"

unfoldable pub ingress_service_name : Text
ingress_service_name = codes "kube-service-exporter.github.com/ingress-service-name"

unfoldable pub ingress_service_port_name : Text
ingress_service_port_name = codes "kube-service-exporter.github.com/ingress-service-port-name"

unfoldable pub http : Text
http = codes "http"

unfoldable pub tcp : Text
tcp = codes "tcp"

unfoldable pub star : Text
star = codes "*"

unfoldable pub default_port_label : Text
default_port_label = codes "default"

unfoldable pub local : Text
local = codes "local"
