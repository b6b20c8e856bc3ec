-- ===== src/Target/Calm.antt =====
-- The target as the watchers see it, and that none of its calls panics.
use kube_service_exporter.Base.{
  ◌≡◌, refl, Bool, true, false, not, Option, none, some, List, arith, if◌then◌else◌, Text, lookup,
  text_eq,
}
use kube_service_exporter.Go.Run.{
  Error, Run, ok, err, panic, or_else, no_leader, agent_services, register, deregister, kv_get,
  kv_put, kv_delete,
}
use kube_service_exporter.Go.Act.{Act, pure, lift, attempt, continue, ◌>>=◌}
use kube_service_exporter.Kube.{Node}
use kube_service_exporter.Export.{ExportedService, id}
use kube_service_exporter.ExportTarget.{ExportTarget}
use kube_service_exporter.Consul.{Present, Consul, Registration, AgentService}
use kube_service_exporter.Target.{
  TargetConfig, metadata_prefix, asr_from_exported_service, write_kv, should_update_kv,
  found_service, should_update_service, create_kv, create, delete_kv, delete, prefix_or_empty,
  clean, update_clean, update_after, update, unchanged, nodes_key, put_nodes, write_nodes,
}
use kube_service_exporter.Target.Document.{
  Codec, hash_text, outdated, hash_text-safe, outdated-safe,
}
use kube_service_exporter.Target.Payload.{payload}
use kube_service_exporter.Target.Nodes.{less, exported_nodes, nodes_json}

-- the Boolean beside the error is not looked at
abbrev forget_result : {A : Type 0} → Run A → Run (Unit {0})
forget_result (ok a) = ok tt
forget_result (err e) = err e
forget_result panic = panic

-- an error of Update stands beside its Boolean
abbrev error_of_update : Run (Bool × Option Error) → Run (Unit {0})
error_of_update (ok (b, none)) = ok tt
error_of_update (ok (b, some e)) = err e
error_of_update (err e) = err e
error_of_update panic = panic

-- ConsulTarget as an ExportTarget
abbrev pub consul_target : Consul → Codec → TargetConfig → ExportTarget
consul_target c codec t = record {
  World = c.World;
  create = λ es w. let (r, w') = create c codec t es w in (forget_result r, w');
  update = λ old new w. let (r, w') = update c codec t old new w in (error_of_update r, w');
  delete = λ es w. let (r, w') = delete c codec t es w in (forget_result r, w');
  write_nodes = write_nodes c codec t;
}

-- a call that never panics
pub record IsCalm {S A : Type 0} (m : Act S A) : Type 0 where
  pub at : (s : S) → ¬ ((m s).0 ≡ panic)

module _ {S : Type 0} where
  IsCalm-lift : {A : Type 0} (r : Run A) → ¬ (r ≡ panic) → IsCalm {S = S} (lift r)
  IsCalm-lift r safe = record { at = λ s. safe }

  IsCalm-pure : {A : Type 0} (a : A) → IsCalm {S = S} (pure a)
  IsCalm-pure a = record { at = λ s e. cc }

  IsCalm-attempt : {A : Type 0} (e : Error) (m : S → Option A × S) → IsCalm (attempt e m)
  IsCalm-attempt {A} e m = record { at = λ s. go (m s).0 }
    where
      go : (o : Option A) → ¬ (or_else o (err e) ≡ panic)
      go none = λ h. cc
      go (some a) = λ h. cc

  IsCalm-bind :
      {A B : Type 0} {m : Act S A} {f : A → Act S B}
      → IsCalm m
      → ((a : A) → IsCalm (f a))
      → IsCalm (m >>= f)
  IsCalm-bind {A} {B} {m} {f} h k = record { at = λ s. go (m s).0 (m s).1 (h.at s) }
    where
      go : (r : Run A) (s : S) → ¬ (r ≡ panic) → ¬ ((continue r f s).0 ≡ panic)
      go (ok a) s safe = (k a).at s
      go (err e) s safe = λ h. cc
      go panic s safe = absurd (safe refl)

  IsCalm-if :
      {A : Type 0} (b : Bool) {m n : Act S A} → IsCalm m → IsCalm n → IsCalm (if b then m else n)
  IsCalm-if true h k = h
  IsCalm-if false h k = k

module _ (c : Consul) (codec : Codec) (t : TargetConfig) where
  open c use {World}

  metadata_prefix-safe : (es : ExportedService) → ¬ (metadata_prefix codec t es ≡ panic)
  unfolding metadata_prefix
  metadata_prefix-safe es e = ground arith

  put_nodes-IsCalm : (nodes : List Node) → IsCalm (put_nodes c codec t nodes)
  unfolding put_nodes
  put_nodes-IsCalm nodes =
      let json = codec.encode (nodes_json (codec.sort_by less (exported_nodes nodes))) in
      IsCalm-bind (IsCalm-attempt kv_get (c.get (nodes_key t))) λ current.
        IsCalm-if (unchanged current json) (IsCalm-pure tt)
          (IsCalm-attempt kv_put (c.put (nodes_key t) json))

  write_nodes-IsCalm : (nodes : List Node) → IsCalm (write_nodes c codec t nodes)
  unfolding write_nodes
  write_nodes-IsCalm nodes = record { at = λ w. go (c.is_leader w) w }
    where
      go :
          (leads : Bool) (w : World)
          → ¬ ((if not leads then (ok tt, w) else put_nodes c codec t nodes w).0 ≡ panic)
      go true w = (put_nodes-IsCalm nodes).at w
      go false w = λ h. cc

  write_kv-IsCalm : (es : ExportedService) → IsCalm (write_kv c codec t es)
  unfolding write_kv
  write_kv-IsCalm es =
      IsCalm-bind (IsCalm-lift (hash_text codec es) (hash_text-safe codec es)) λ hash.
        IsCalm-bind (IsCalm-lift (metadata_prefix codec t es) (metadata_prefix-safe es))
          λ key. IsCalm-attempt kv_put (c.put key (codec.encode (payload hash es)))

  should_update_kv-IsCalm : (es : ExportedService) → IsCalm (should_update_kv c codec t es)
  unfolding should_update_kv
  should_update_kv-IsCalm es =
      IsCalm-bind (IsCalm-lift (metadata_prefix codec t es) (metadata_prefix-safe es)) λ key.
        IsCalm-bind (IsCalm-attempt kv_get (c.get key))
          λ pair. IsCalm-lift (outdated codec es pair) (outdated-safe codec es pair)

  found_service-IsCalm :
      (r : Registration) (o : Option (Option AgentService))
      → ¬ (o ≡ some none)
      → IsCalm (found_service c codec t r o)
  unfolding found_service
  found_service-IsCalm r none present = IsCalm-pure (true, r)
  found_service-IsCalm r (some none) present = absurd (present refl)
  found_service-IsCalm r (some (some service)) present = IsCalm-pure _

  module _ (present : Present c) where
    should_update_service-IsCalm : (r : Registration) → IsCalm (should_update_service c codec t r)
    unfolding should_update_service
    should_update_service-IsCalm r =
        IsCalm-if (not t.services_enabled) (IsCalm-pure (false, r)) (record {
          at = λ w. go (c.services w).0 (c.services w).1 (λ l e. present w l r.service_id e);
        })
      where
        go :
            (o : Option (List (Text × Option AgentService))) (w : World)
            → ((l : List (Text × Option AgentService))
                → o ≡ some l
                → ¬ (lookup r.service_id l ≡ some none))
            → ¬ (
                (continue
                  (or_else o (err agent_services))
                  (λ l. found_service c codec t r (lookup r.service_id l))
                  w).0
                ≡ panic)
        go none w known = λ h. cc
        go (some l) w known = (found_service-IsCalm r (lookup r.service_id l) (known l refl)).at w

    create_kv-IsCalm : (es : ExportedService) → IsCalm (create_kv c codec t es)
    unfolding create_kv
    create_kv-IsCalm es = IsCalm-bind (should_update_kv-IsCalm es) λ update.
        IsCalm-if (not update) (IsCalm-pure true)
          (IsCalm-bind (write_kv-IsCalm es) λ u. IsCalm-pure true)

    leads-IsCalm : IsCalm (λ (w : World). (ok (c.is_leader w), w))
    leads-IsCalm = record { at = λ w e. cc }

    create-IsCalm : (es : ExportedService) → IsCalm (create c codec t es)
    unfolding create
    create-IsCalm es = IsCalm-bind (IsCalm-attempt no_leader c.wait_for_leader) λ u.
        IsCalm-bind (should_update_service-IsCalm (asr_from_exported_service t es)) λ (update, asr).
          IsCalm-bind (IsCalm-if update (IsCalm-attempt register (c.register asr)) (IsCalm-pure tt))
            λ u'.
              IsCalm-bind leads-IsCalm
                λ leader. IsCalm-if leader (create_kv-IsCalm es) (IsCalm-pure true)

    delete_kv-IsCalm : (es : ExportedService) → IsCalm (delete_kv c codec t es)
    unfolding delete_kv
    delete_kv-IsCalm es =
        IsCalm-bind (IsCalm-lift (metadata_prefix codec t es) (metadata_prefix-safe es)) λ prefix.
          IsCalm-bind (IsCalm-attempt kv_delete (c.delete_tree prefix)) λ u. IsCalm-pure true

    delete-IsCalm : (es : ExportedService) → IsCalm (delete c codec t es)
    unfolding delete
    delete-IsCalm es = IsCalm-bind (IsCalm-attempt deregister (c.deregister (id es))) λ u.
        IsCalm-bind leads-IsCalm λ leader. IsCalm-if leader (delete_kv-IsCalm es) (IsCalm-pure true)

    clean-IsCalm :
        (old : Option ExportedService) (new : ExportedService) → IsCalm (clean c codec t old new)
    unfolding clean
    clean-IsCalm none new = IsCalm-pure false
    clean-IsCalm (some old) new =
        IsCalm-if (text_eq (prefix_or_empty codec t old) (prefix_or_empty codec t new))
          (IsCalm-pure false) (delete-IsCalm old)

    update_clean-safe : (b : Bool) (r : Run Bool) → ¬ (r ≡ panic) → ¬ (update_clean b r ≡ panic)
    unfolding update_clean
    update_clean-safe b (ok a) safe = λ e. cc
    update_clean-safe b (err x) safe = λ e. cc
    update_clean-safe b panic safe = absurd (safe refl)

    update_after-safe :
        (old : Option ExportedService) (new : ExportedService) (r : Run Bool) (w : World)
        → ¬ (r ≡ panic)
        → ¬ ((update_after c codec t old new r w).0 ≡ panic)
    unfolding update_after
    update_after-safe old new (ok created) w safe =
        update_clean-safe created (clean c codec t old new w).0 ((clean-IsCalm old new).at w)
    update_after-safe old new (err e) w safe = λ h. cc
    update_after-safe old new panic w safe = absurd (safe refl)

    update-IsCalm :
        (old : Option ExportedService) (new : ExportedService) → IsCalm (update c codec t old new)
    unfolding update
    update-IsCalm old new = record {
      at = λ w.
          update_after-safe old new (create c codec t new w).0 (create c codec t new w).1
            ((create-IsCalm new).at w);
    }

  -- it would be dereferenced
  pub create-panics :
      (w : World) (es : ExportedService) (l : List (Text × Option AgentService))
      → t.services_enabled ≡ true
      → (c.wait_for_leader w).0 ≡ some tt
      → (c.services (c.wait_for_leader w).1).0 ≡ some l
      → lookup (id es) l ≡ some none
      → (create c codec t es w).0 ≡ panic
  unfolding create should_update_service found_service asr_from_exported_service
  create-panics w es l enabled leader answer nil_entry =
      rw (leader, enabled, answer, nil_entry) refl

forget_result-safe : {A : Type 0} (r : Run A) → ¬ (r ≡ panic) → ¬ (forget_result r ≡ panic)
forget_result-safe (ok a) safe = λ e. cc
forget_result-safe (err x) safe = λ e. cc
forget_result-safe panic safe = absurd (safe refl)

error_of_update-safe :
    (r : Run (Bool × Option Error)) → ¬ (r ≡ panic) → ¬ (error_of_update r ≡ panic)
error_of_update-safe (ok (b, none)) safe = λ e. cc
error_of_update-safe (ok (b, some x)) safe = λ e. cc
error_of_update-safe (err x) safe = λ e. cc
error_of_update-safe panic safe = absurd (safe refl)

-- Let the agent's answers have no nil pointer as a service. Then no call of the watchers on the Consul target
-- panics, whatever the state of the world is, whichever calls on Consul fail, and whatever else they,
-- the leader elector, the key template, the hash and the stored documents answer.
pub consul_target-safe :
    (c : Consul) (codec : Codec) (t : TargetConfig)
    → Present c
    → (w : c.World) (old : Option ExportedService) (es : ExportedService) (nodes : List Node)
    → ¬ (((consul_target c codec t).create es w).0 ≡ panic)
      × ¬ (((consul_target c codec t).update old es w).0 ≡ panic)
      × ¬ (((consul_target c codec t).delete es w).0 ≡ panic)
      × ¬ (((consul_target c codec t).write_nodes nodes w).0 ≡ panic)
consul_target-safe c codec t present w old es nodes = (
  forget_result-safe (create c codec t es w).0 ((create-IsCalm c codec t present es).at w),
  error_of_update-safe (update c codec t old es w).0
      ((update-IsCalm c codec t present old es).at w),
  forget_result-safe (delete c codec t es w).0 ((delete-IsCalm c codec t present es).at w),
  (write_nodes-IsCalm c codec t nodes).at w,
)
