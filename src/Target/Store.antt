-- ===== src/Target/Store.antt =====
-- The steps of Create, and what each does to the key-value store.
use kube_service_exporter.Base.{
  ◌≡◌, refl, Bool, true, false, not, Option, none, some, arith, if◌then◌else◌, Text, lookup,
}
use kube_service_exporter.Go.Run.{ok, no_leader, agent_services, register}
use kube_service_exporter.Go.Act.{
  attempt-Ends, pure, Ends, Ends-bind, Ends-pure, Ends-if, Ends-lift, Ends-weaken, Ends-fact, Post,
}
use kube_service_exporter.Export.{ExportedService}
use kube_service_exporter.Consul.{Consul, Laws, Registration, AgentService}
use kube_service_exporter.Target.{
  TargetConfig, metadata_prefix, write_kv, should_update_kv, should_update_service, found_service,
  create_kv, create, asr_from_exported_service,
}
use kube_service_exporter.Target.Document.{
  Codec, hash_text, outdated, RoundTrips, IsCurrent, payload-IsCurrent, outdated-IsCurrent,
  outdated-false, hash_text-safe, outdated-safe,
}
use kube_service_exporter.Target.Payload.{payload}
use kube_service_exporter.Target.Kv.{
  Same, SameBut, Same-SameBut, Same-trans, register-Same, wait-Same, services-Same, quiet-Ends,
  quiet_last-Ends, pure-Ends, leader-Ends, get-Ends, put-Ends,
}

not-true : (b : Bool) → not b ≡ true → b ≡ false
not-true b e = ground arith

module _ (c : Consul) (laws : Laws c) (codec : Codec) (es : ExportedService) where
  open c use {World}
  open laws use {kv}

  -- what a successful Create leaves in the store, for the key of the service
  pub record Stored (key : Text) (w w' : World) : Type 0 where
    pub current : IsCurrent codec es (kv w' key)
    pub others : SameBut c laws key w w'

module _ (c : Consul) (laws : Laws c) (codec : Codec) (t : TargetConfig)
    (es : ExportedService) where
  open c use {World}
  open laws use {kv}

  module _ (w₀ : World) (key : Text) (at_key : metadata_prefix codec t es ≡ ok key) where
    abbrev Elsewhere : World → Type 0
    Elsewhere = SameBut c laws key w₀

    weak : (w : World) → Same c laws w₀ w → Elsewhere w
    weak w s = Same-SameBut c laws key s

    write_kv-Ends :
        RoundTrips codec
        → Ends
            (Same c laws w₀)
            (write_kv c codec t es)
            (λ u w. Stored c laws codec es key w₀ w)
            Elsewhere
    unfolding write_kv
    write_kv-Ends trips =
        pure-Ends c laws w₀ weak (hash_text codec es) (hash_text-safe codec es) λ hash hashed.
          rw at_key (
            Ends-weaken (put-Ends c laws w₀ key (codec.encode (payload hash es))) (λ w p. p)
              (λ u w (but, at). record {
                current = rw at (payload-IsCurrent codec es hash trips hashed);
                others = but;
              }))

    should_update_kv-Ends :
        {E : World → Type 0}
        → ((w : World) → Same c laws w₀ w → E w)
        → Ends
            (Same c laws w₀)
            (should_update_kv c codec t es)
            (λ b w. Same c laws w₀ w × (outdated codec es (kv w₀ key) ≡ ok b))
            E
    unfolding should_update_kv
    should_update_kv-Ends weaken = rw at_key (
        get-Ends c laws w₀ weaken key λ o at.
          Ends-lift (outdated codec es o) (λ w p b e. (p, rw at e)) (λ w p x e. weaken w p)
            (outdated-safe codec es o))

    pub create_kv-Ends :
        RoundTrips codec
        → Ends
            (Same c laws w₀)
            (create_kv c codec t es)
            (λ u w. Stored c laws codec es key w₀ w)
            Elsewhere
    unfolding create_kv
    create_kv-Ends trips = Ends-bind (should_update_kv-Ends weak) λ b. Ends-fact λ fact.
        Ends-if (not b)
          (λ e. Ends-pure true λ w p. record {
            current =
                rw (p.at_key key) (outdated-false codec es (kv w₀ key) (rw (not-true b e) at fact));
            others = weak w p;
          })
          (λ e. Ends-bind (write_kv-Ends trips) λ u. Ends-pure true λ w p. p)

    -- a current document is left as it is
    pub create_kv-current :
        IsCurrent codec es (kv w₀ key)
        → Ends (Same c laws w₀) (create_kv c codec t es) (λ u w. Same c laws w₀ w) (Same c laws w₀)
    unfolding create_kv
    create_kv-current i = Ends-bind (should_update_kv-Ends λ w p. p) λ b. Ends-fact λ fact.
        Ends-if (not b) (λ e. Ends-pure true λ w p. p)
          (λ e. absurd (ground (arith, outdated-IsCurrent codec es (kv w₀ key) i)))

  module _ (w₀ : World) {E : World → Type 0} (weak : (w : World) → Same c laws w₀ w → E w) where
    -- the agent's services are no part of the store
    should_update_service-Ends :
        (r : Registration)
        → Ends (Same c laws w₀) (should_update_service c codec t r) (λ p w. Same c laws w₀ w) E
    unfolding should_update_service
    should_update_service-Ends r =
        Ends-if (not t.services_enabled) (λ _. Ends-pure (false, r) λ w p. p)
          (λ _.
            attempt-Ends agent_services c.services (λ l. (i : Text) → ¬ (lookup i l ≡ some none))
              (λ w p. Same-trans c laws p (services-Same c laws w)) weak
              (λ w l p h i. laws.services_present w l i h)
              λ l present. record {
                at = λ w p. go (lookup r.service_id l) (present r.service_id) w p;
              })
      where
        go :
            (o : Option (Option AgentService))
            → ¬ (o ≡ some none)
            → (w : World) → Same c laws w₀ w
            → Post
                (λ p w. Same c laws w₀ w)
                E
                (found_service c codec t r o w).0
                (found_service c codec t r o w).1
        go none present w p = unfold found_service in p
        go (some none) present w p = absurd (present refl)
        go (some (some s)) present w p = unfold found_service in p

    -- what stands in front of the key-value part of Create
    pub create-Ends :
        {R : Bool → World → Type 0}
        → Ends (Same c laws w₀) (if c.is_leader w₀ then create_kv c codec t es else pure true) R E
        → Ends (Same c laws w₀) (create c codec t es) R E
    unfolding create
    create-Ends rest = quiet-Ends c laws w₀ weak no_leader c.wait_for_leader (wait-Same c laws) λ _.
        Ends-bind (should_update_service-Ends (asr_from_exported_service t es)) λ (update, asr).
          Ends-bind
            (Ends-if update
              (λ _.
                quiet_last-Ends c laws w₀ weak register (c.register asr) (register-Same c laws asr))
              (λ _. Ends-pure tt λ w p. p))
            λ _.
              leader-Ends c laws w₀ weak
                (λ leader. if leader then create_kv c codec t es else pure true) rest
