-- ===== src/Target.antt =====
-- pkg/controller/consul_target.go: the target that writes exported services and nodes to Consul, as
-- calls on the state of the world. Logs and metrics are left out. The JSON text format, the structure
-- hash, the key template and sort.Sort are parameters.
pub mod Payload
pub mod Document
pub mod Sort
pub mod Nodes
pub mod Kv
pub mod Store
pub mod Create
pub mod Delete
pub mod Update
pub mod WriteNodes
pub mod Metered
pub mod Calm
pub mod Region
pub mod Follower
pub mod Reliable
pub mod Replace
pub mod Start
pub mod Examples
use kube_service_exporter.Base.{
  Bool, true, false, not, ◌&&◌, Option, none, some, List, [], ◌∷◌, ◌++◌, ◌==◌, if◌then◌else◌, Text,
  codes, lookup, is_empty, text_eq,
}
use kube_service_exporter.Go.Run.{
  Error, Run, ok, err, panic, no_leader, agent_services, register, deregister, kv_get, kv_put,
  kv_delete, key_template,
}
use kube_service_exporter.Go.Act.{Act, pure, raise, lift, attempt, ◌>>=◌, ◌>>◌}
use kube_service_exporter.Go.Int.{ℤ, pos, negsuc}
use kube_service_exporter.Go.Strconv.{itoa, format}
use kube_service_exporter.Go.Json.{
  Json, null, bool, num, str, arr, obj, Fields, end, field, Items, nil, cons, get_field, arr,
}
use kube_service_exporter.Kube.{Node}
use kube_service_exporter.Export.{ExportedService, id}
use kube_service_exporter.Consul.{Consul, Registration, AgentService}
use Nodes.{NodeEntry, less, exported_nodes, nodes_json}
use Document.{Codec, hash_text, outdated}
use Payload.{hash_key, payload}
use Sort.{sort_texts, texts_eq}

-- the fields of ConsulTarget that are no clients
pub record TargetConfig : Type 0 where
  pub host_ip : Text
  pub kv_prefix : Text
  pub cluster_id : Text
  pub services_enabled : Bool
  pub services_key_tmpl : Text

abbrev slash : Text → Text → Text
slash a b = a ++ (b'/' ∷ b)

unfoldable pub asr_from_exported_service : TargetConfig → ExportedService → Registration
asr_from_exported_service t es = record {
  service_id = id es;
  name = id es;
  tags = es.cluster_id ∷ codes "kube-service-exporter" ∷ [];
  port = es.port;
  address = t.host_ip;
  check = record {
    name = codes "NodePort";
    tcp = t.host_ip ++ (b':' ∷ itoa es.port);
    interval = codes "10s";
  };
}

int_eq : ℤ → ℤ → Bool
int_eq (pos m) (pos n) = m == n
int_eq (negsuc m) (negsuc n) = m == n
int_eq _ _ = false

module _ (codec : Codec) (t : TargetConfig) where
  -- metadataPrefix
  unfoldable pub metadata_prefix : ExportedService → Run Text
  metadata_prefix es =
      let path : Text → Text = λ name.
        slash t.kv_prefix
          (slash (codes "services") (slash name (slash (codes "clusters") es.cluster_id))) in
      if is_empty t.services_key_tmpl
      then ok (path (id es))
      else elim (codec.render t.services_key_tmpl es) [
        | none ↦ err key_template
        | some name ↦ ok (path name)
      ]

  -- what `prefix, _ := t.metadataPrefix(es)` leaves in `prefix`
  prefix_or_empty : ExportedService → Text
  prefix_or_empty es = elim (metadata_prefix es) [ ok p ↦ p | err e ↦ [] | panic ↦ [] ]

unfoldable pub nodes_key : TargetConfig → Text
nodes_key t = slash t.kv_prefix (slash (codes "nodes") t.cluster_id)

-- `current != nil && bytes.Equal(current.Value, nodeJson)`
unchanged : Option Text → Text → Bool
unchanged none json = false
unchanged (some value) json = text_eq value json

-- Update returns its Boolean beside an error of `clean` too
update_clean : Bool → Run Bool → Run (Bool × Option Error)
update_clean created (ok removed) = ok (created, none)
update_clean created (err e) = ok (created, some e)
update_clean created panic = panic

module _ (c : Consul) (codec : Codec) (t : TargetConfig) where
  open c use {World}

  -- writeKV
  pub write_kv : ExportedService → Act World (Unit {0})
  unfolding hash_text metadata_prefix payload
  write_kv es = do
    hash ← lift (hash_text codec es)
    key ← lift (metadata_prefix codec t es)
    attempt kv_put (c.put key (codec.encode (payload hash es)))

  pub should_update_kv : ExportedService → Act World Bool
  unfolding outdated metadata_prefix
  should_update_kv es = do
    key ← lift (metadata_prefix codec t es)
    pair ← attempt kv_get (c.get key)
    lift (outdated codec es pair)

  -- the service that the agent has is the one that would be registered
  registered : Registration → AgentService → Bool
  registered r s =
      text_eq r.service_id s.service_id
      && text_eq r.name s.service
      && texts_eq r.tags (sort_texts s.tags)
      && int_eq r.port s.port
      && text_eq r.address s.address

  -- What the agent has under the registration's id; the tags of both are sorted in place. A nil pointer is
  -- dereferenced.
  found_service : Registration → Option (Option AgentService) → Act World (Bool × Registration)
  unfolding registered
  found_service r none = pure (true, r)
  found_service r (some none) = lift panic
  found_service r (some (some service)) =
      let r' = record r { tags = sort_texts r.tags } in pure (not (registered r' service), r')

  -- shouldUpdateService; the registration comes back as well, since its tags are sorted in place
  pub should_update_service : Registration → Act World (Bool × Registration)
  unfolding found_service
  should_update_service r = if not t.services_enabled then pure (false, r) else do
    services ← attempt agent_services c.services
    found_service r (lookup r.service_id services)

  -- the key-value part of Create, for the leader
  pub create_kv : ExportedService → Act World Bool
  unfolding should_update_kv write_kv
  create_kv es = do
    update ← should_update_kv es
    if not update then pure true else do write_kv es; pure true

  pub create : ExportedService → Act World Bool
  unfolding create_kv should_update_service
  create es = do
    attempt no_leader c.wait_for_leader
    (update, asr) ← should_update_service (asr_from_exported_service t es)
    if update then attempt register (c.register asr) else pure tt
    leader ← λ w. (ok (c.is_leader w), w)
    if leader then create_kv es else pure true

  -- the key-value part of Delete, for the leader
  pub delete_kv : ExportedService → Act World Bool
  unfolding metadata_prefix
  delete_kv es = do
    prefix ← lift (metadata_prefix codec t es)
    attempt kv_delete (c.delete_tree prefix)
    pure true

  pub delete : ExportedService → Act World Bool
  unfolding delete_kv
  delete es = do
    attempt deregister (c.deregister (id es))
    leader ← λ w. (ok (c.is_leader w), w)
    if leader then delete_kv es else pure true

  pub clean : Option ExportedService → ExportedService → Act World Bool
  unfolding prefix_or_empty
  clean none new = pure false
  clean (some old) new =
      if text_eq (prefix_or_empty codec t old) (prefix_or_empty codec t new)
      then pure false
      else delete old

  -- Update behind its Create
  update_after :
      Option ExportedService → ExportedService → Run Bool → Act World (Bool × Option Error)
  unfolding update_clean
  update_after old new (ok created) w =
      let (r, w') = clean old new w in (update_clean created r, w')
  update_after old new (err e) w = (ok (false, some e), w)
  update_after old new panic w = (panic, w)

  pub update : Option ExportedService → ExportedService → Act World (Bool × Option Error)
  unfolding update_after
  update old new w = let (r, w') = create new w in update_after old new r w'

  -- the part of WriteNodes behind its test of leadership
  put_nodes : List Node → Act World (Unit {0})
  unfolding unchanged nodes_key exported_nodes nodes_json
  put_nodes nodes = do
    let json = codec.encode (nodes_json (codec.sort_by less (exported_nodes nodes)))
    current ← attempt kv_get (c.get (nodes_key t))
    if unchanged current json then pure tt else attempt kv_put (c.put (nodes_key t) json)

  pub write_nodes : List Node → Act World (Unit {0})
  unfolding put_nodes
  write_nodes nodes w = if not (c.is_leader w) then (ok tt, w) else put_nodes nodes w
