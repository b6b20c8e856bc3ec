-- ===== src/Target/Reliable.antt =====
-- Create, Delete and Update by the leader while every call on Consul succeeds.
use kube_service_exporter.Base.{
  ◌≡◌, refl, sym, ◌∙◌, Bool, true, false, not, Option, none, some, if◌then◌else◌, Text, lookup,
}
use kube_service_exporter.Go.Run.{
  Error, Run, ok, err, panic, no_leader, agent_services, register, deregister, kv_get, kv_put,
  kv_delete,
}
use kube_service_exporter.Go.Act.{
  pure, attempt, Post, Ends, Ends-pure, Ends-bind, Ends-if, Ends-attempt, Ends-lift, read-Ends,
}
use kube_service_exporter.Go.Json.{Fields, obj}
use kube_service_exporter.Export.{ExportedService, id}
use kube_service_exporter.Consul.{Consul, Laws, Registration, AgentService}
use kube_service_exporter.Target.{
  TargetConfig, metadata_prefix, asr_from_exported_service, write_kv, should_update_kv,
  found_service, should_update_service, create_kv, create, delete_kv, delete, update,
}
use kube_service_exporter.Target.Document.{
  Codec, hash_text, outdated, IsCurrent, RoundTrips, outdated-parsed, outdated-safe,
}
use kube_service_exporter.Target.Payload.{payload}
use kube_service_exporter.Target.Kv.{
  Same, SameBut, Same-refl, Same-trans, services-Same, register-Same, deregister-Same, wait-Same,
}
use kube_service_exporter.Target.Store.{Stored}
use kube_service_exporter.Target.Create.{create-kv}
use kube_service_exporter.Target.Delete.{Pruned, DeletedFor, NotDeletedFor, delete-kv}

-- the answer is a value
abbrev pub Answered : {A : Type 0} → Option A → Type 0
Answered {A} o = (a : A) × (o ≡ some a)

-- every call on Consul succeeds
pub record Answers (c : Consul) : Type 0 where
  pub get : (k : Text) (w : c.World) → Answered (c.get k w).0
  pub put : (k v : Text) (w : c.World) → Answered (c.put k v w).0
  pub delete_tree : (k : Text) (w : c.World) → Answered (c.delete_tree k w).0
  pub services : (w : c.World) → Answered (c.services w).0
  pub register : (r : Registration) (w : c.World) → Answered (c.register r w).0
  pub deregister : (k : Text) (w : c.World) → Answered (c.deregister k w).0
  pub wait_for_leader : (w : c.World) → Answered (c.wait_for_leader w).0

-- a stored value that can be read: there is none, or it is a JSON object
pub data Readable (codec : Codec) : Option Text → Type 0 where
  missing : Readable codec none
  parsed :
      (value : Text) (fields : Fields)
      → codec.decode value ≡ some (obj fields)
      → Readable codec (some value)

pub IsCurrent-Readable :
    (codec : Codec) (es : ExportedService) (o : Option Text)
    → IsCurrent codec es o
    → Readable codec o
IsCurrent-Readable codec es o i = rw i.stored (parsed i.value i.fields i.parsed)

outdated-Readable :
    (codec : Codec) (es : ExportedService) (h : Text) (o : Option Text)
    → hash_text codec es ≡ ok h
    → Readable codec o
    → (b : Bool) × (outdated codec es o ≡ ok b)
outdated-Readable codec es h o hashed missing = (true, unfold outdated in refl)
outdated-Readable codec es h o hashed (parsed value fields e) =
    outdated-parsed codec es h value fields hashed e

Never : {S : Type 0} → S → Type 0
Never s = ⊥

module _ (c : Consul) (laws : Laws c) (answers : Answers c) (codec : Codec) (t : TargetConfig)
    (es : ExportedService) (key hash : Text) (at_key : metadata_prefix codec t es ≡ ok key)
    (hashed : hash_text codec es ≡ ok hash) where
  open c use {World}
  open laws use {kv}

  module _ (w₀ : World) where
    -- a call that succeeds
    answered :
        {A : Type 0} {P : World → Type 0} (e : Error) (m : World → Option A × World)
        → ((w : World) → Answered (m w).0)
        → (Q : A → World → Type 0) → ((w : World) → P w → (a : A) → (m w).0 ≡ some a → Q a (m w).1)
        → Ends P (attempt e m) Q Never
    unfolding Never
    answered e m answer Q good =
        Ends-attempt e m good λ w p h. let (a, h') = answer w in absurd (some-none (m w).0 h h')
      where
        some-none : {A : Type 0} {a : A} (o : Option A) → o ≡ none → o ≡ some a → ⊥
        some-none o p q = cc

    -- one that leaves the store alone
    quiet-success :
        {A : Type 0} (e : Error) (m : World → Option A × World)
        → ((w : World) → Answered (m w).0)
        → ((w : World) → Same c laws w (m w).1)
        → Ends (Same c laws w₀) (attempt e m) (λ a w. Same c laws w₀ w) Never
    quiet-success e m answer same =
        answered e m answer (λ a w. Same c laws w₀ w) λ w p a h. Same-trans c laws p (same w)

    should_update_service-success :
        (r : Registration)
        → Ends (Same c laws w₀) (should_update_service c codec t r) (λ p w. Same c laws w₀ w) Never
    unfolding should_update_service
    should_update_service-success r =
        Ends-if (not t.services_enabled) (λ _. Ends-pure (false, r) λ w p. p)
          (λ _.
            Ends-bind
              (answered agent_services c.services answers.services
                (λ l w. Same c laws w₀ w × ((i : Text) → ¬ (lookup i l ≡ some none)))
                λ w p l h. (
                  Same-trans c laws p (services-Same c laws w),
                  λ i. laws.services_present w l i h,
                ))
              λ l. record {
                at = λ w (p, present). go (lookup r.service_id l) (present r.service_id) w p;
              })
      where
        go :
            (o : Option (Option AgentService))
            → ¬ (o ≡ some none)
            → (w : World) → Same c laws w₀ w
            → Post
                (λ p w. Same c laws w₀ w)
                Never
                (found_service c codec t r o w).0
                (found_service c codec t r o w).1
        go none present w p = unfold found_service in p
        go (some none) present w p = absurd (present refl)
        go (some (some s)) present w p = unfold found_service in p

    should_update_kv-success :
        Readable codec (kv w₀ key)
        → Ends (Same c laws w₀) (should_update_kv c codec t es) (λ b w. Unit) Never
    unfolding should_update_kv
    should_update_kv-success readable = rw at_key (
        Ends-bind
          (answered kv_get (c.get key) (answers.get key) (λ o w. kv w₀ key ≡ o)
            λ w p o h. sym (p.at_key key) ∙ laws.get_value key w o h)
          λ o.
            Ends-lift (outdated codec es o) (λ w e b h. tt)
              (λ w e x h. absurd (
                let (b, h') = outdated-Readable codec es hash o hashed (rw e at readable) in
                ok-err (outdated codec es o) h' h))
              (outdated-safe codec es o))
      where
        ok-err : {A : Type 0} {a : A} {x : Error} (r : Run A) → r ≡ ok a → r ≡ err x → ⊥
        ok-err r p q = cc

    write_kv-success : {P : World → Type 0} → Ends P (write_kv c codec t es) (λ u w. Unit) Never
    unfolding write_kv
    write_kv-success =
        rw (hashed, at_key)
          (answered kv_put (c.put key (codec.encode (payload hash es)))
            (answers.put key (codec.encode (payload hash es))) (λ u w. Unit) λ w p u h. tt)

    create_kv-success :
        Readable codec (kv w₀ key)
        → Ends (Same c laws w₀) (create_kv c codec t es) (λ b w. Unit) Never
    unfolding create_kv
    create_kv-success readable = Ends-bind (should_update_kv-success readable) λ b.
        Ends-if (not b) (λ e. Ends-pure true λ w p. tt)
          (λ e. Ends-bind write_kv-success λ u. Ends-pure true λ w p. tt)

    create-success :
        c.is_leader w₀ ≡ true
        → Readable codec (kv w₀ key)
        → Ends (Same c laws w₀) (create c codec t es) (λ b w. Unit) Never
    unfolding create
    create-success leads readable =
        Ends-bind
          (quiet-success no_leader c.wait_for_leader answers.wait_for_leader (wait-Same c laws))
          λ _.
            Ends-bind (should_update_service-success (asr_from_exported_service t es))
              λ (update, asr).
                Ends-bind
                  (Ends-if update
                    (λ _.
                      quiet-success register (c.register asr) (answers.register asr)
                        (register-Same c laws asr))
                    (λ _. Ends-pure tt λ w p. p))
                  λ _.
                    read-Ends c.is_leader true
                      (λ leader. if leader then create_kv c codec t es else pure true)
                      (λ w p. p.leader ∙ leads) (create_kv-success readable)

    delete_kv-success : {P : World → Type 0} → Ends P (delete_kv c codec t es) (λ b w. Unit) Never
    unfolding delete_kv
    delete_kv-success = rw at_key (
        Ends-bind
          (answered kv_delete (c.delete_tree key) (answers.delete_tree key) (λ u w. Unit)
            λ w p u h. tt)
          λ u. Ends-pure true λ w p. tt)

    delete-success :
        c.is_leader w₀ ≡ true → Ends (Same c laws w₀) (delete c codec t es) (λ b w. Unit) Never
    unfolding delete
    delete-success leads =
        Ends-bind
          (quiet-success deregister (c.deregister (id es)) (answers.deregister (id es))
            (deregister-Same c laws (id es)))
          λ _.
            read-Ends c.is_leader true
              (λ leader. if leader then delete_kv c codec t es else pure true)
              (λ w p. p.leader ∙ leads) delete_kv-success

    succeeded :
        {A : Type 0} (r : Run A) (w : World) → Post (λ a w. Unit) Never r w → (a : A) × (r ≡ ok a)
    unfolding Never
    succeeded (ok a) w p = (a, refl)
    succeeded (err e) w p = absurd p
    succeeded panic w p = absurd p

    -- Create by the leader succeeds
    pub create-ok :
        c.is_leader w₀ ≡ true
        → Readable codec (kv w₀ key)
        → (b : Bool) × ((create c codec t es w₀).0 ≡ ok b)
    create-ok leads readable =
        succeeded (create c codec t es w₀).0 (create c codec t es w₀).1
          ((create-success leads readable).at w₀ (Same-refl c laws w₀))

    pub delete-ok : c.is_leader w₀ ≡ true → (b : Bool) × ((delete c codec t es w₀).0 ≡ ok b)
    delete-ok leads =
        succeeded (delete c codec t es w₀).0 (delete c codec t es w₀).1
          ((delete-success leads).at w₀ (Same-refl c laws w₀))

    -- so the document of the service stands in the store
    pub create-Stored :
        RoundTrips codec
        → c.is_leader w₀ ≡ true
        → Readable codec (kv w₀ key)
        → Stored c laws codec es key w₀ (create c codec t es w₀).1
    create-Stored trips leads readable =
        let (b, e) = create-ok leads readable in
        let p : Post (λ b w'. Stored c laws codec es key w₀ w') (λ w'. SameBut c laws key w₀ w')
            (create c codec t es w₀).0 (create c codec t es w₀).1 =
          rw leads at (create-kv c laws codec t es key at_key trips w₀) in
        let q : Post (λ b w'. Stored c laws codec es key w₀ w') (λ w'. SameBut c laws key w₀ w')
            (ok b) (create c codec t es w₀).1 =
          rw e at p in
        q

    -- and so everything below the key of the service is gone
    pub delete-Pruned : c.is_leader w₀ ≡ true → Pruned c laws key w₀ (delete c codec t es w₀).1
    delete-Pruned leads =
        let (b, e) = delete-ok leads in
        let p : Post (λ b w'. DeletedFor c laws key true w₀ w')
            (λ w'. NotDeletedFor c laws key true w₀ w') (delete c codec t es w₀).0
            (delete c codec t es w₀).1 =
          rw leads at (delete-kv c laws codec t es key at_key w₀) in
        let q : Post (λ b w'. DeletedFor c laws key true w₀ w')
            (λ w'. NotDeletedFor c laws key true w₀ w') (ok b) (delete c codec t es w₀).1 =
          rw e at p in
        q
