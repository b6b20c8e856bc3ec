-- ===== src/Target/Region.antt =====
-- Where in the key-value store the target writes for services.
use kube_service_exporter.Base.{
  ◌≡◌, refl, ◌∙◌, inl, inr, true, false, not, Option, none, some, [], ◌∷◌, ◌++◌, append_assoc,
  append-nil, arith, Bool-cases, Text, codes, text_eq_iff, lookup, is_empty, text_eq, has_prefix,
}
use kube_service_exporter.Go.Run.{
  Error, ok, err, no_leader, agent_services, register, deregister, kv_get, kv_put, kv_delete,
  key_template,
}
use kube_service_exporter.Go.Act.{attempt}
use kube_service_exporter.Go.Keeps.{
  Preorder, Keeps, Keeps-pure, Keeps-lift, Keeps-bind, lift-Keeps, Keeps-if, Keeps-attempt,
  Keeps-read,
}
use kube_service_exporter.Export.{ExportedService, id}
use kube_service_exporter.Consul.{Consul, Laws, Registration, AgentService}
use kube_service_exporter.Target.{
  TargetConfig, slash, metadata_prefix, asr_from_exported_service, write_kv, should_update_kv,
  found_service, should_update_service, create_kv, create, delete_kv, delete, update,
}
use kube_service_exporter.Target.Document.{Codec, hash_text, outdated}
use kube_service_exporter.Target.Payload.{payload}
use kube_service_exporter.Target.Kv.{
  Same, get-Same, services-Same, register-Same, deregister-Same, wait-Same, put-SameBut,
}
use kube_service_exporter.Target.Update.{has_prefix-append}

-- what begins with a longer text begins with the shorter one
pub has_prefix-shorter : (s d j : Text) → has_prefix (s ++ d) j ≡ true → has_prefix s j ≡ true
unfolding has_prefix
has_prefix-shorter [] d j h = refl
has_prefix-shorter (a ∷ s) d [] h = h
has_prefix-shorter (a ∷ s) d (b ∷ j) h = ground (arith, has_prefix-shorter s d j)

pub has_prefix-itself : (k : Text) → has_prefix k k ≡ true
has_prefix-itself k = rw (append-nil k) at (has_prefix-append k [])

pub other_key : (k j : Text) → has_prefix k j ≡ false → text_eq k j ≡ false
other_key k j h = elim (Bool-cases (text_eq k j)) [
  | inl same ↦ absurd (go ((text_eq_iff k j).0 same))
  | inr other ↦ other
]
  where
    go : k ≡ j → ⊥
    go e = ground (arith, has_prefix-itself k, rw e at h)

-- where the documents of the services stand
unfoldable pub services_region : TargetConfig → Text
services_region t = slash t.kv_prefix (slash (codes "services") [])

module _ (codec : Codec) (t : TargetConfig) where
  -- each service's key begins so
  pub metadata_prefix-region :
      (es : ExportedService) (k : Text)
      → metadata_prefix codec t es ≡ ok k
      → (r : Text) × (k ≡ services_region t ++ r)
  unfolding metadata_prefix services_region
  metadata_prefix-region es k e = elim (Bool-cases (is_empty t.services_key_tmpl)) [
    | inl plain ↦ (rest (id es), at_path (id es) (rw plain at e))
    | inr template ↦ go (codec.render t.services_key_tmpl es) (rw template at e)
  ]
    where
      rest : Text → Text
      rest name = slash name (slash (codes "clusters") es.cluster_id)

      path : Text → Text
      path name = slash t.kv_prefix (slash (codes "services") (rest name))

      at_ok : {a b : Text} → ok a ≡ ok b → b ≡ a
      at_ok f = cc

      at_path : (name : Text) → ok (path name) ≡ ok k → k ≡ services_region t ++ rest name
      at_path name h = at_ok h ∙ simp append_assoc

      go :
          (o : Option Text)
          → elim o [ none ↦ err key_template | some name ↦ ok (path name) ] ≡ ok k
          → (r : Text) × (k ≡ services_region t ++ r)
      go none h = cc
      go (some name) h = (rest name, at_path name h)

module _ (c : Consul) (laws : Laws c) (codec : Codec) (t : TargetConfig) where
  open c use {World}
  open laws use {kv}

  -- nothing outside the region of the services has changed
  pub record Outside (w w' : World) : Type 0 where
    pub at_key : (j : Text) → has_prefix (services_region t) j ≡ false → kv w' j ≡ kv w j
    pub leader : c.is_leader w' ≡ c.is_leader w

  pub Outside-Preorder : Preorder Outside
  Outside-Preorder = record {
    stays = λ w. record { at_key = λ j h. refl; leader = refl };
    joins = λ u v w p q. record {
      at_key = λ j h. q.at_key j h ∙ p.at_key j h;
      leader = q.leader ∙ p.leader;
    };
  }

  Same-Outside : {w w' : World} → Same c laws w w' → Outside w w'
  Same-Outside s = record { at_key = λ j h. s.at_key j; leader = s.leader }

  -- a key outside the region does not begin with the key of a service
  apart :
      (es : ExportedService) (k j : Text)
      → metadata_prefix codec t es ≡ ok k
      → has_prefix (services_region t) j ≡ false
      → has_prefix k j ≡ false
  apart es k j e h = elim (Bool-cases (has_prefix k j)) [
    | inl below ↦ absurd (go (metadata_prefix-region codec t es k e) below)
    | inr other ↦ other
  ]
    where
      go : (r : Text) × (k ≡ services_region t ++ r) → has_prefix k j ≡ true → ⊥
      go (r, at) below = ground (arith, has_prefix-shorter (services_region t) r j (rw at at below))

  quiet :
      {A : Type 0} (e : Error) (m : World → Option A × World)
      → ((w : World) → Same c laws w (m w).1)
      → Keeps Outside (attempt e m)
  quiet e m h = Keeps-attempt Outside Outside-Preorder e m λ w. Same-Outside (h w)

  put_service-Outside :
      (es : ExportedService) (k v : Text)
      → metadata_prefix codec t es ≡ ok k
      → (w : World) → Outside w (c.put k v w).1
  put_service-Outside es k v e w = record {
    at_key = λ j h. (put-SameBut c laws k v w).at_key j (other_key k j (apart es k j e h));
    leader = laws.put_leader k v w;
  }

  delete_service-Outside :
      (es : ExportedService) (k : Text)
      → metadata_prefix codec t es ≡ ok k
      → (w : World) → Outside w (c.delete_tree k w).1
  delete_service-Outside es k e w = record {
    at_key = λ j h. go (c.delete_tree k w).0 refl j (apart es k j e h);
    leader = laws.delete_leader k w;
  }
    where
      go :
          (o : Option (Unit {0}))
          → (c.delete_tree k w).0 ≡ o
          → (j : Text) → has_prefix k j ≡ false
          → kv (c.delete_tree k w).1 j ≡ kv w j
      go none h j other = elim (laws.delete_failed k w j h) [
        | inl same ↦ same
        | inr (below, g) ↦ absurd (ground (arith, below, other))
      ]
      go (some tt) h j other = laws.delete_ok k w j h ∙ rw other refl

  write_kv-Outside : (es : ExportedService) → Keeps Outside (write_kv c codec t es)
  unfolding write_kv
  write_kv-Outside es = lift-Keeps Outside Outside-Preorder (hash_text codec es) λ hash h.
      lift-Keeps Outside Outside-Preorder (metadata_prefix codec t es) λ k e.
        Keeps-attempt Outside Outside-Preorder kv_put (c.put k (codec.encode (payload hash es)))
          (put_service-Outside es k (codec.encode (payload hash es)) e)

  should_update_kv-Outside : (es : ExportedService) → Keeps Outside (should_update_kv c codec t es)
  unfolding should_update_kv
  should_update_kv-Outside es =
      lift-Keeps Outside Outside-Preorder (metadata_prefix codec t es) λ k e.
        Keeps-bind Outside Outside-Preorder (quiet kv_get (c.get k) (get-Same c laws k))
          λ pair. Keeps-lift Outside Outside-Preorder (outdated codec es pair)

  create_kv-Outside : (es : ExportedService) → Keeps Outside (create_kv c codec t es)
  unfolding create_kv
  create_kv-Outside es = Keeps-bind Outside Outside-Preorder (should_update_kv-Outside es) λ update.
      Keeps-if Outside Outside-Preorder (not update) (Keeps-pure Outside Outside-Preorder true) (
        Keeps-bind Outside Outside-Preorder (write_kv-Outside es)
          λ u. Keeps-pure Outside Outside-Preorder true)

  found_service-Outside :
      (r : Registration) (o : Option (Option AgentService))
      → Keeps Outside (found_service c codec t r o)
  unfolding found_service
  found_service-Outside r none = Keeps-pure Outside Outside-Preorder (true, r)
  found_service-Outside r (some none) = record { at = λ w. Outside-Preorder.stays w }
  found_service-Outside r (some (some service)) = Keeps-pure Outside Outside-Preorder _

  should_update_service-Outside :
      (r : Registration) → Keeps Outside (should_update_service c codec t r)
  unfolding should_update_service
  should_update_service-Outside r =
      Keeps-if Outside Outside-Preorder (not t.services_enabled)
        (Keeps-pure Outside Outside-Preorder (false, r))
        (Keeps-bind Outside Outside-Preorder
          (quiet agent_services c.services (services-Same c laws))
          λ found. found_service-Outside r (lookup r.service_id found))

  pub create-Outside : (es : ExportedService) → Keeps Outside (create c codec t es)
  unfolding create
  create-Outside es =
      Keeps-bind Outside Outside-Preorder (quiet no_leader c.wait_for_leader (wait-Same c laws))
        λ u.
          Keeps-bind Outside Outside-Preorder
            (should_update_service-Outside (asr_from_exported_service t es))
            λ (update, asr).
              Keeps-bind Outside Outside-Preorder
                (Keeps-if Outside Outside-Preorder update
                  (quiet register (c.register asr) (register-Same c laws asr))
                  (Keeps-pure Outside Outside-Preorder tt))
                λ u'.
                  Keeps-bind Outside Outside-Preorder
                    (Keeps-read Outside Outside-Preorder c.is_leader)
                    λ leader.
                      Keeps-if Outside Outside-Preorder leader (create_kv-Outside es)
                        (Keeps-pure Outside Outside-Preorder true)

  delete_kv-Outside : (es : ExportedService) → Keeps Outside (delete_kv c codec t es)
  unfolding delete_kv
  delete_kv-Outside es = lift-Keeps Outside Outside-Preorder (metadata_prefix codec t es) λ k e.
      Keeps-bind Outside Outside-Preorder
        (Keeps-attempt Outside Outside-Preorder kv_delete (c.delete_tree k)
          (delete_service-Outside es k e))
        λ u. Keeps-pure Outside Outside-Preorder true

  pub delete-Outside : (es : ExportedService) → Keeps Outside (delete c codec t es)
  unfolding delete
  delete-Outside es =
      Keeps-bind Outside Outside-Preorder
        (quiet deregister (c.deregister (id es)) (deregister-Same c laws (id es)))
        λ u.
          Keeps-bind Outside Outside-Preorder (Keeps-read Outside Outside-Preorder c.is_leader)
            λ leader.
              Keeps-if Outside Outside-Preorder leader (delete_kv-Outside es)
                (Keeps-pure Outside Outside-Preorder true)
