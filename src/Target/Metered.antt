-- ===== src/Target/Metered.antt =====
-- The target on the instrumented Consul client: what it sends to statsd changes nothing else.
use kube_service_exporter.Base.{
  ℕ, ◌≡◌, refl, sym, Bool, true, false, not, Option, none, some, List, if◌then◌else◌, Text, lookup,
  text_eq,
}
use kube_service_exporter.Go.Run.{
  Error, Run, ok, err, panic, no_leader, agent_services, register, deregister, kv_get, kv_put,
  kv_delete,
}
use kube_service_exporter.Go.Act.{Act, lift, attempt, continue, ◌>>=◌}
use kube_service_exporter.Kube.{Node}
use kube_service_exporter.Export.{ExportedService, id}
use kube_service_exporter.Consul.{Consul, Registration, AgentService}
use kube_service_exporter.Consul.Instrumented.{
  instrumented, timed_get, timed_put, timed_delete_tree, timed_register, timed_deregister,
  timed_services,
}
use kube_service_exporter.Target.{
  TargetConfig, metadata_prefix, asr_from_exported_service, write_kv, should_update_kv,
  found_service, should_update_service, create_kv, create, delete_kv, delete, prefix_or_empty,
  clean, update_after, update, unchanged, nodes_key, put_nodes, write_nodes,
}
use kube_service_exporter.Target.Document.{Codec, hash_text, outdated}
use kube_service_exporter.Target.Payload.{payload}
use kube_service_exporter.Target.Nodes.{less, exported_nodes, nodes_json}

-- the same, but for what has been sent
abbrev pub seen : {A W S : Type 0} → A × (W × S) → A × W
seen (a, (w, sent)) = (a, w)

module _ {W S : Type 0} where
  -- the second call does what the first one does, and may send more
  record Follows {A : Type 0} (m : Act W A) (m' : Act (W × S) A) : Type 0 where
    at : (s : W × S) → seen (m' s) ≡ m s.0

  Follows-pure : {A : Type 0} (r : Run A) → Follows (lift r) (lift r)
  Follows-pure r = record { at = λ s. refl }

  Follows-bind :
      {A B : Type 0} {m : Act W A} {m' : Act (W × S) A} {f : A → Act W B} {f' : A → Act (W × S) B}
      → Follows m m'
      → ((a : A) → Follows (f a) (f' a))
      → Follows (m >>= f) (m' >>= f')
  Follows-bind {A} {B} {m} {m'} {f} {f'} h k = record {
    at = λ s. rw (sym (h.at s)) (go (m' s).0 (m' s).1);
  }
    where
      go : (r : Run A) (s : W × S) → seen (continue r f' s) ≡ continue r f s.0
      go (ok a) s = (k a).at s
      go (err e) s = refl
      go panic s = refl

  Follows-if :
      {A : Type 0} (b : Bool) {m n : Act W A} {m' n' : Act (W × S) A}
      → Follows m m'
      → Follows n n'
      → Follows (if b then m else n) (if b then m' else n')
  Follows-if true h k = h
  Follows-if false h k = k

  Follows-attempt :
      {A : Type 0} (e : Error) (m : W → Option A × W) (m' : W × S → Option A × (W × S))
      → ((s : W × S) → seen (m' s) ≡ m s.0)
      → Follows (attempt e m) (attempt e m')
  Follows-attempt e m m' h = record { at = λ s. rw (sym (h s)) refl }

module _ (c : Consul) (now : c.World → ℕ) (tags : List Text) (codec : Codec)
    (t : TargetConfig) where
  abbrev pub metered : Consul
  metered = instrumented c now tags

  leads-Follows : Follows (λ w. (ok (c.is_leader w), w)) (λ w. (ok (metered.is_leader w), w))
  leads-Follows = record { at = λ s. refl }

  write_kv-Follows :
      (es : ExportedService) → Follows (write_kv c codec t es) (write_kv metered codec t es)
  unfolding write_kv timed_put
  write_kv-Follows es = Follows-bind (Follows-pure (hash_text codec es)) λ hash.
      Follows-bind (Follows-pure (metadata_prefix codec t es)) λ key.
        Follows-attempt kv_put (c.put key (codec.encode (payload hash es)))
          (metered.put key (codec.encode (payload hash es))) λ s. refl

  should_update_kv-Follows :
      (es : ExportedService)
      → Follows (should_update_kv c codec t es) (should_update_kv metered codec t es)
  unfolding should_update_kv timed_get
  should_update_kv-Follows es = Follows-bind (Follows-pure (metadata_prefix codec t es)) λ key.
      Follows-bind (Follows-attempt kv_get (c.get key) (metered.get key) λ s. refl)
        λ pair. Follows-pure (outdated codec es pair)

  found_service-Follows :
      (r : Registration) (o : Option (Option AgentService))
      → Follows (found_service c codec t r o) (found_service metered codec t r o)
  unfolding found_service
  found_service-Follows r none = Follows-pure (ok (true, r))
  found_service-Follows r (some none) = Follows-pure panic
  found_service-Follows r (some (some service)) = Follows-pure _

  should_update_service-Follows :
      (r : Registration)
      → Follows (should_update_service c codec t r) (should_update_service metered codec t r)
  unfolding should_update_service timed_services
  should_update_service-Follows r =
      Follows-if (not t.services_enabled) (Follows-pure (ok (false, r))) (
        Follows-bind (Follows-attempt agent_services c.services metered.services λ s. refl)
          λ found. found_service-Follows r (lookup r.service_id found))

  create_kv-Follows :
      (es : ExportedService) → Follows (create_kv c codec t es) (create_kv metered codec t es)
  unfolding create_kv
  create_kv-Follows es = Follows-bind (should_update_kv-Follows es) λ update.
      Follows-if (not update) (Follows-pure (ok true))
        (Follows-bind (write_kv-Follows es) λ u. Follows-pure (ok true))

  create-Follows :
      (es : ExportedService) → Follows (create c codec t es) (create metered codec t es)
  unfolding create timed_register
  create-Follows es =
      Follows-bind (Follows-attempt no_leader c.wait_for_leader metered.wait_for_leader λ s. refl)
        λ u.
          Follows-bind (should_update_service-Follows (asr_from_exported_service t es))
            λ (update, asr).
              Follows-bind
                (Follows-if update
                  (Follows-attempt register (c.register asr) (metered.register asr) λ s. refl)
                  (Follows-pure (ok tt)))
                λ u'.
                  Follows-bind leads-Follows
                    λ leader. Follows-if leader (create_kv-Follows es) (Follows-pure (ok true))

  delete_kv-Follows :
      (es : ExportedService) → Follows (delete_kv c codec t es) (delete_kv metered codec t es)
  unfolding delete_kv timed_delete_tree
  delete_kv-Follows es = Follows-bind (Follows-pure (metadata_prefix codec t es)) λ prefix.
      Follows-bind
        (Follows-attempt kv_delete (c.delete_tree prefix) (metered.delete_tree prefix) λ s. refl)
        λ u. Follows-pure (ok true)

  delete-Follows :
      (es : ExportedService) → Follows (delete c codec t es) (delete metered codec t es)
  unfolding delete timed_deregister
  delete-Follows es =
      Follows-bind
        (Follows-attempt deregister (c.deregister (id es)) (metered.deregister (id es)) λ s. refl)
        λ u.
          Follows-bind leads-Follows
            λ leader. Follows-if leader (delete_kv-Follows es) (Follows-pure (ok true))

  put_nodes-Follows :
      (nodes : List Node) → Follows (put_nodes c codec t nodes) (put_nodes metered codec t nodes)
  unfolding put_nodes timed_get timed_put
  put_nodes-Follows nodes =
      let json = codec.encode (nodes_json (codec.sort_by less (exported_nodes nodes))) in
      Follows-bind
        (Follows-attempt kv_get (c.get (nodes_key t)) (metered.get (nodes_key t)) λ s. refl)
        λ current. Follows-if (unchanged current json) (Follows-pure (ok tt)) (
          Follows-attempt kv_put (c.put (nodes_key t) json) (metered.put (nodes_key t) json)
            λ s. refl)

  write_nodes-Follows :
      (nodes : List Node)
      → Follows (write_nodes c codec t nodes) (write_nodes metered codec t nodes)
  unfolding write_nodes
  write_nodes-Follows nodes = record { at = λ s. go (c.is_leader s.0) s }
    where
      go :
          (leads : Bool) (s : metered.World)
          → seen (if not leads then (ok tt, s) else put_nodes metered codec t nodes s)
            ≡ (if not leads then (ok tt, s.0) else put_nodes c codec t nodes s.0)
      go true s = (put_nodes-Follows nodes).at s
      go false s = refl

  clean-Follows :
      (old : Option ExportedService) (new : ExportedService)
      → Follows (clean c codec t old new) (clean metered codec t old new)
  unfolding clean
  clean-Follows none new = Follows-pure (ok false)
  clean-Follows (some old) new =
      Follows-if (text_eq (prefix_or_empty codec t old) (prefix_or_empty codec t new))
        (Follows-pure (ok false)) (delete-Follows old)

  update_after-Follows :
      (old : Option ExportedService) (new : ExportedService) (r : Run Bool)
      → Follows (update_after c codec t old new r) (update_after metered codec t old new r)
  unfolding update_after
  update_after-Follows old new (ok created) = record {
    at = λ s. rw (sym ((clean-Follows old new).at s)) refl;
  }
  update_after-Follows old new (err e) = record { at = λ s. refl }
  update_after-Follows old new panic = record { at = λ s. refl }

  update-Follows :
      (old : Option ExportedService) (new : ExportedService)
      → Follows (update c codec t old new) (update metered codec t old new)
  unfolding update
  update-Follows old new = record {
    at = λ s. rw (sym ((create-Follows new).at s)) (
        (update_after-Follows old new (create metered codec t new s).0).at
          (create metered codec t new s).1);
  }

  -- On the instrumented client, Create, Update, Delete and WriteNodes have the results that they have on the
  -- client that it wraps, and leave the same world: all that the instrumentation adds is what it sends.
  pub instrumented-seen :
      (s : metered.World) (old : Option ExportedService) (es : ExportedService) (nodes : List Node)
      → (seen (create metered codec t es s) ≡ create c codec t es s.0)
        × (seen (update metered codec t old es s) ≡ update c codec t old es s.0)
        × (seen (delete metered codec t es s) ≡ delete c codec t es s.0)
        × (seen (write_nodes metered codec t nodes s) ≡ write_nodes c codec t nodes s.0)
  instrumented-seen s old es nodes = (
    (create-Follows es).at s,
    (update-Follows old es).at s,
    (delete-Follows es).at s,
    (write_nodes-Follows nodes).at s,
  )
