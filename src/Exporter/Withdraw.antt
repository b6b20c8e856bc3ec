-- ===== src/Exporter/Withdraw.antt =====
-- deleteService on the Consul target: what the leader takes out of the store while every call on Consul
-- succeeds, and that it takes back what addService has put there.
use kube_service_exporter.Base.{
  ◌≡◌, refl, sym, ap, ◌∙◌, inl, inr, Bool, true, false, Option, none, some, List, [], ◌∷◌, arith,
  if◌then◌else◌, Bool-cases, Text, text_eq, has_prefix,
}
use kube_service_exporter.Go.Run.{ok}
use kube_service_exporter.Go.Json.{Json}
use kube_service_exporter.Kube.{Service}
use kube_service_exporter.Export.{ExportedService, Indexed}
use kube_service_exporter.ExportTarget.{ExportTarget}
use kube_service_exporter.Consul.{Consul, Laws}
use kube_service_exporter.Target.{TargetConfig, delete}
use kube_service_exporter.Target.Document.{Codec, RoundTrips}
use kube_service_exporter.Target.Calm.{consul_target}
use kube_service_exporter.Target.Delete.{Pruned}
use kube_service_exporter.Target.Region.{other_key, has_prefix-itself}
use kube_service_exporter.Target.WriteNodes.{In}
use kube_service_exporter.Target.Replace.{Keyed}
use kube_service_exporter.Target.Reliable.{Answers, missing, delete-ok, delete-Pruned}
use kube_service_exporter.ServiceWatcher.{delete_each, exported_of, add_service, delete_service}
use kube_service_exporter.ServiceWatcher.Handlers.{listed, olds_of-listed}
use kube_service_exporter.Exporter.Publish.{Ready, Exported, add_service-Exported}

module _ {codec : Codec} {t : TargetConfig} (keyed : Keyed codec t) where
  open keyed use {key}

  -- the key begins with that of one of the services
  unfoldable pub below : List ExportedService → Text → Bool
  below [] j = false
  below (es ∷ l) j = let rest = below l j in if has_prefix (key es) j then true else rest

  -- the keys of the services are below themselves
  pub below-other :
      (l : List ExportedService) (j : Text)
      → below l j ≡ false
      → (es : ExportedService) → In es l
      → text_eq (key es) j ≡ false
  unfolding below
  below-other [] j h es i = absurd i
  below-other (first ∷ l) j h es i = elim (Bool-cases (has_prefix (key first) j)) [
    | inl under ↦ absurd (ground (arith, under))
    | inr apart ↦ elim i [
      | inl e ↦ rw e (other_key (key first) j apart)
      | inr i' ↦ below-other l j (rw apart at h) es i'
    ]
  ]

  -- and so is each key itself
  pub below-itself :
      (l : List ExportedService) (es : ExportedService) → In es l → below l (key es) ≡ true
  unfolding below
  below-itself [] es i = absurd i
  below-itself (first ∷ l) es (inl e) = rw (e, has_prefix-itself (key first)) refl
  below-itself (first ∷ l) es (inr i) =
      rw (below-itself l es i) (either (has_prefix (key first) (key es)))
    where
      either : (b : Bool) → (if b then true else true) ≡ true
      either true = refl
      either false = refl

module _ (c : Consul) (laws : Laws c) (answers : Answers c) (codec : Codec) (t : TargetConfig)
    (keyed : Keyed codec t) where
  open c use {World}
  open laws use {kv}
  open keyed use {key, hash, at_key, hashed}

  abbrev target : ExportTarget
  target = consul_target c codec t

  -- exactly what is below the keys of the services is gone
  pub record Withdrawn (l : List ExportedService) (w w' : World) : Type 0 where
    pub at_each : (j : Text) → kv w' j ≡ (if below keyed l j then none else kv w j)
    pub leader : c.is_leader w' ≡ c.is_leader w

  delete_each-cons :
      (es : ExportedService) (l : List ExportedService) (w : World) (b : Bool)
      → (delete c codec t es w).0 ≡ ok b
      → delete_each target (es ∷ l) w ≡ delete_each target l (delete c codec t es w).1
  unfolding delete_each
  delete_each-cons es l w b e = rw e refl

  Withdrawn-cons :
      (es : ExportedService) (l : List ExportedService) (u v w : World)
      → Pruned c laws (key es) u v
      → Withdrawn l v w
      → Withdrawn (es ∷ l) u w
  unfolding below
  Withdrawn-cons es l u v w p x = record {
    at_each = λ j.
        x.at_each j
        ∙ ap (λ o. if below keyed l j then none else o) (p.at_key j)
        ∙ either (below keyed l j) (has_prefix (key es) j) (kv u j);
    leader = x.leader ∙ p.leader;
  }
    where
      either :
          (rest here : Bool) (o : Option Text)
          → (if rest then none else (if here then none else o))
            ≡ (if if here then true else rest then none else o)
      either true true o = refl
      either true false o = refl
      either false true o = refl
      either false false o = refl

  delete_each-Withdrawn :
      (l : List ExportedService) (w : World)
      → c.is_leader w ≡ true
      → Withdrawn l w (delete_each target l w).1
  delete_each-Withdrawn [] w leads =
      unfold delete_each below in record { at_each = λ j. refl; leader = refl }
  delete_each-Withdrawn (es ∷ l) w leads =
      let (b, e) =
        delete-ok c laws answers codec t es (key es) (hash es) (at_key es) (hashed es) w leads in
      let p =
        delete-Pruned c laws answers codec t es (key es) (hash es) (at_key es) (hashed es) w
          leads in
      let w' = (delete c codec t es w).1 in
      rw (delete_each-cons es l w b e)
        (Withdrawn-cons es l w w' _ p (delete_each-Withdrawn l w' (p.leader ∙ leads)))

  delete_each-ok :
      (l : List ExportedService) (w : World)
      → c.is_leader w ≡ true
      → (delete_each target l w).0 ≡ ok tt
  delete_each-ok [] w leads = unfold delete_each in refl
  delete_each-ok (es ∷ l) w leads =
      let (b, e) =
        delete-ok c laws answers codec t es (key es) (hash es) (at_key es) (hashed es) w leads in
      let p =
        delete-Pruned c laws answers codec t es (key es) (hash es) (at_key es) (hashed es) w
          leads in
      rw (delete_each-cons es l w b e)
        (delete_each-ok l (delete c codec t es w).1 (p.leader ∙ leads))

  module _ (unmarshal : Text → Option Json) (cluster_id : Text) (index : Text → Indexed)
      (s : Service) where
    pub delete_service-ok :
        (w : World)
        → c.is_leader w ≡ true
        → (delete_service target unmarshal cluster_id index (some s) w).0 ≡ ok tt
    unfolding delete_service
    delete_service-ok w leads =
        rw (olds_of-listed unmarshal cluster_id index s)
          (delete_each-ok (listed (exported_of unmarshal cluster_id index s)) w leads)

    -- Let every call on Consul succeed and every service have a key and a hash. Then deleteService in the
    -- leader removes exactly the keys that begin with the key of an exported service of the Service; a
    -- Service that is wrong has none.
    pub delete_service-Withdrawn :
        (w : World)
        → c.is_leader w ≡ true
        → Withdrawn
            (listed (exported_of unmarshal cluster_id index s))
            w
            (delete_service target unmarshal cluster_id index (some s) w).1
    unfolding delete_service
    delete_service-Withdrawn w leads =
        rw (olds_of-listed unmarshal cluster_id index s)
          (delete_each-Withdrawn (listed (exported_of unmarshal cluster_id index s)) w leads)

    -- Let every call on Consul succeed, let encoding/json read back what it wrote, let every service have a
    -- key and a hash, and let nothing stand at or below the keys of the exported services of the
    -- Service. When the leader has been told of the Service, and then of its deletion, the store is
    -- what it was before.
    pub delete_service-add_service :
        (l : List ExportedService) (w : World)
        → RoundTrips codec
        → exported_of unmarshal cluster_id index s ≡ ok l
        → c.is_leader w ≡ true
        → ((j : Text) → below keyed l j ≡ true → kv w j ≡ none)
        → (j : Text)
        → kv
            (delete_service target unmarshal cluster_id index
              (some s)
              (add_service target unmarshal cluster_id index s w).1).1
            j
          ≡ kv w j
    delete_service-add_service l w trips e leads clear j = elim (Bool-cases (below keyed l j)) [
      | inl under ↦ after ∙ rw under refl ∙ sym (clear j under)
      | inr apart ↦ after ∙ rw apart (x.others j (below-other keyed l j apart))
    ]
      where
        ready : Ready c laws answers codec trips t keyed l w
        ready es i = rw (clear (key es) (below-itself keyed l es i)) missing

        x :
            Exported c laws answers codec trips t keyed l w
              (add_service target unmarshal cluster_id index s w).1
        x =
            add_service-Exported c laws answers codec trips t keyed unmarshal cluster_id index s l w
              e leads ready

        same : listed (exported_of unmarshal cluster_id index s) ≡ l
        same = rw e refl

        after :
            kv
              (delete_service target unmarshal cluster_id index
                (some s)
                (add_service target unmarshal cluster_id index s w).1).1
              j
            ≡ (if below keyed l j
                then none
                else kv (add_service target unmarshal cluster_id index s w).1 j)
        after = rw same at (
            (delete_service-Withdrawn (add_service target unmarshal cluster_id index s w).1
                (x.leader ∙ leads)).at_each
              j)
