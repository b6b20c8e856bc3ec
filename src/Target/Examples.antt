-- ===== src/Target/Examples.antt =====
-- The target at work on a small world: its theorems at concrete inputs.
pub mod Wire
pub mod World
mod Samples
use kube_service_exporter.Base.{
  ◌+◌, ◌≡◌, refl, Bool, true, false, none, some, List, [], ◌∷◌, length, Text, codes, lookup,
  text_eq, has_prefix,
}
use kube_service_exporter.Go.Run.{ok}
use kube_service_exporter.Kube.{Node, node_internal_ip}
use kube_service_exporter.Export.{ExportedService, id}
use kube_service_exporter.Target.{
  TargetConfig, metadata_prefix, create, clean, delete, update, write_nodes, nodes_key,
}
use kube_service_exporter.Target.Document.{Codec, IsCurrent, hash_text}
use kube_service_exporter.Target.Create.{CreatedFor, FailedFor, create-kv, create-create}
use kube_service_exporter.Target.Delete.{DeletedFor, NotDeletedFor, delete-kv}
use kube_service_exporter.Target.Update.{UpdatedFor, on_cluster, update-kv, delete-longer_cluster}
use kube_service_exporter.Target.WriteNodes.{
  ListedFor, UnlistedFor, In, Internal, entry, exported_nodes_iff, write_nodes-kv,
}
use kube_service_exporter.Target.Kv.{Same, SameBut}
use kube_service_exporter.Target.Nodes.{exported_nodes}
use kube_service_exporter.Go.Run.{ok}
use kube_service_exporter.Go.Act.{Post}
use kube_service_exporter.Go.Int.{pos}
use kube_service_exporter.Go.Json.{end}
use Wire.{encode, decode, decode-encode}
use World.{Agent, world, laws}

abbrev keep_order : {A : Type 0} → (A → A → Bool) → List A → List A
keep_order less l = l

abbrev pub codec : Codec
codec = record {
  encode = encode;
  decode = decode;
  structure_hash = λ es. some (length es.name + 17);
  render = λ template es. none;
  sort_by = keep_order;
}

abbrev pub config : TargetConfig
config = record {
  host_ip = codes "10.0.0.1";
  kv_prefix = codes "kse";
  cluster_id = codes "c1";
  services_enabled = true;
  services_key_tmpl = [];
}

abbrev web_http : ExportedService
web_http = record {
  cluster_id = codes "c1";
  namespace = codes "default";
  name = codes "web";
  port_name = codes "http";
  port = pos 32046;
  dns_name = [];
  service_per_cluster = false;
  health_check_path = [];
  health_check_port = pos 32046;
  backend_protocol = codes "http";
  proxy_protocol = false;
  load_balancer_class = [];
  load_balancer_listen_port = pos 0;
  ingress_service_name = [];
  ingress_service_namespace = [];
  ingress_service_port_name = [];
  ingress_sni = [];
  custom_attrs = some end;
  id_prefix = [];
  version = 1;
}

-- the service under another name
abbrev site_http : ExportedService
site_http = record web_http { name = codes "site" }

abbrev web_key : Text
web_key = codes "kse/services/default-web-http/clusters/c1"

abbrev site_key : Text
site_key = codes "kse/services/default-site-http/clusters/c1"

-- nothing is stored, and this process leads
abbrev at_start : Agent
at_start = record { leads = true; kv = λ key. none }

web_at_key : metadata_prefix codec config web_http ≡ ok web_key
unfolding metadata_prefix id
web_at_key = refl

site_at_key : metadata_prefix codec config site_http ≡ ok site_key
unfolding metadata_prefix id
site_at_key = refl

create-kv_example :
    Post
      (λ b w. CreatedFor world laws codec web_http web_key true at_start w)
      (λ w. FailedFor world laws web_key true at_start w)
      (create world codec config web_http at_start).0
      (create world codec config web_http at_start).1
create-kv_example =
    create-kv world laws codec config web_http web_key web_at_key decode-encode at_start

delete-kv_example :
    Post
      (λ b w. DeletedFor world laws web_key true at_start w)
      (λ w. NotDeletedFor world laws web_key true at_start w)
      (delete world codec config web_http at_start).0
      (delete world codec config web_http at_start).1
delete-kv_example = delete-kv world laws codec config web_http web_key web_at_key at_start

-- the state behind a Create
abbrev stored : Agent
stored = (create world codec config web_http at_start).1

web-IsCurrent : IsCurrent codec web_http (stored.kv web_key)
unfolding create lookup
web-IsCurrent =
    (create-kv world laws codec config web_http web_key web_at_key decode-encode at_start).current

update-kv_example :
    UpdatedFor world laws codec config false site_http web_key site_key stored
      (update world codec config (some web_http) site_http stored).1
unfolding create lookup has_prefix update text_eq id clean delete
update-kv_example =
    update-kv world laws codec config web_http site_http web_key site_key web_at_key site_at_key
      decode-encode stored true refl (λ _. refl) refl

abbrev worker : Node
worker = record {
  name = codes "worker-1";
  annotations = none;
  unschedulable = false;
  conditions = [];
  addresses = record { type = node_internal_ip; address = codes "10.0.0.7" } ∷ [];
}

write_nodes-kv_example :
    Post
      (λ u w. ListedFor world laws codec config (worker ∷ []) true at_start w)
      (UnlistedFor world laws codec config (worker ∷ []) true at_start)
      (write_nodes world codec config (worker ∷ []) at_start).0
      (write_nodes world codec config (worker ∷ []) at_start).1
write_nodes-kv_example = write_nodes-kv world laws codec config (worker ∷ []) at_start
