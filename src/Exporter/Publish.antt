-- ===== src/Exporter/Publish.antt =====
-- addService on the Consul target: the documents that stand in the store when the leader has been told of
-- a Service and every call on Consul succeeds.
use kube_service_exporter.Base.{
  ◌≡◌, refl, sym, ◌∙◌, ◌⊎◌, inl, inr, Bool, true, false, Option, List, [], ◌∷◌, Bool-cases, Text,
  text_eq_iff, text_eq,
}
use kube_service_exporter.Go.Run.{ok}
use kube_service_exporter.Go.Json.{Json}
use kube_service_exporter.Kube.{Service}
use kube_service_exporter.Export.{ExportedService, is_exportable_service, Indexed}
use kube_service_exporter.ExportTarget.{ExportTarget}
use kube_service_exporter.Consul.{Consul, Laws}
use kube_service_exporter.Target.{TargetConfig, create}
use kube_service_exporter.Target.Document.{Codec, IsCurrent, RoundTrips}
use kube_service_exporter.Target.Calm.{consul_target}
use kube_service_exporter.Target.Store.{Stored}
use kube_service_exporter.Target.WriteNodes.{In}
use kube_service_exporter.Target.Replace.{Keyed}
use kube_service_exporter.Target.Reliable.{
  Answers, Readable, IsCurrent-Readable, create-ok, create-Stored,
}
use kube_service_exporter.ServiceWatcher.{create_each, exported_of, add_service}
use kube_service_exporter.ServiceWatcher.Handlers.{exported_of-not_exportable}

module _ (T : ExportTarget) (unmarshal : Text → Option Json) (cluster_id : Text)
    (index : Text → Indexed) where
  -- addService for what NewExportedServicesFromKubeService returned
  pub add_service-list :
      (s : Service) (l : List ExportedService) (w : T.World)
      → exported_of unmarshal cluster_id index s ≡ ok l
      → add_service T unmarshal cluster_id index s w ≡ create_each T l w
  unfolding add_service
  add_service-list s l w e = elim (Bool-cases (is_exportable_service s)) [
    | inl exportable ↦ rw (exportable, e) refl
    | inr barred ↦
        let nothing : ok l ≡ ok [] =
          sym e ∙ exported_of-not_exportable unmarshal cluster_id index s barred in
        rw (barred, ok_inj nothing) (unfold create_each in refl)
  ]
    where
      ok_inj : {a b : List ExportedService} → ok a ≡ ok b → a ≡ b
      ok_inj f = cc

module _ {codec : Codec} {t : TargetConfig} (keyed : Keyed codec t) where
  open keyed use {key}

  -- whether a service of the list has this key
  pub shares :
      (l : List ExportedService) (k : Text)
      → ((es : ExportedService) × In es l × (key es ≡ k))
        ⊎ ((es : ExportedService) → In es l → text_eq (key es) k ≡ false)
  shares [] k = inr λ es i. absurd i
  shares (first ∷ l) k = elim (Bool-cases (text_eq (key first) k)) [
    | inl same ↦ inl (first, inl refl, (text_eq_iff (key first) k).0 same)
    | inr other ↦ elim (shares l k) [
      | inl (es, i, e) ↦ inl (es, inr i, e)
      | inr none_does ↦ inr λ es. elim [ inl e ↦ rw e other | inr i ↦ none_does es i ]
    ]
  ]

module _ (c : Consul) (laws : Laws c) (answers : Answers c) (codec : Codec)
    (trips : RoundTrips codec) (t : TargetConfig) (keyed : Keyed codec t) where
  open c use {World}
  open laws use {kv}
  open keyed use {key, hash, at_key, hashed}

  abbrev target : ExportTarget
  target = consul_target c codec t

  -- each service finds a document under its key, its own or that of another one with the same key
  abbrev pub Published : List ExportedService → World → Type 0
  Published l w =
      (es : ExportedService)
      → In es l
      → (es' : ExportedService) × In es' l
        × (key es' ≡ key es)
        × IsCurrent codec es' (kv w (key es))

  -- what stands under the keys of the services can be read
  abbrev pub Ready : List ExportedService → World → Type 0
  Ready l w = (es : ExportedService) → In es l → Readable codec (kv w (key es))

  -- the services are published, and no other key has changed
  pub record Exported (l : List ExportedService) (w w' : World) : Type 0 where
    pub published : Published l w'
    pub others :
        (j : Text)
        → ((es : ExportedService) → In es l → text_eq (key es) j ≡ false)
        → kv w' j ≡ kv w j
    pub leader : c.is_leader w' ≡ c.is_leader w

  create_each-cons :
      (es : ExportedService) (l : List ExportedService) (w : World) (b : Bool)
      → (create c codec t es w).0 ≡ ok b
      → create_each target (es ∷ l) w ≡ create_each target l (create c codec t es w).1
  unfolding create_each
  create_each-cons es l w b e = rw e refl

  -- a document that was written can be read
  Stored-Ready :
      (es : ExportedService) (l : List ExportedService) (w w' : World)
      → Stored c laws codec es (key es) w w'
      → Ready l w
      → Ready l w'
  Stored-Ready es l w w' s ready e i = elim (Bool-cases (text_eq (key es) (key e))) [
    | inl same ↦
        IsCurrent-Readable codec es _ (rw ((text_eq_iff (key es) (key e)).0 same) at s.current)
    | inr other ↦ rw (s.others.at_key (key e) other) (ready e i)
  ]

  -- one more service in front
  Exported-cons :
      (es : ExportedService) (l : List ExportedService) (u v w : World)
      → Stored c laws codec es (key es) u v
      → Exported l v w
      → Exported (es ∷ l) u w
  Exported-cons es l u v w s x = record {
    published = λ e. elim [
      | inl same ↦ rw same (first (shares keyed l (key es)))
      | inr i ↦ let (e', i', k, now) = x.published e i in (e', inr i', k, now)
    ];
    others = λ j h. x.others j (λ e i. h e (inr i)) ∙ s.others.at_key j (h es (inl refl));
    leader = x.leader ∙ s.others.leader;
  }
    where
      first :
          ((e : ExportedService) × In e l × (key e ≡ key es))
            ⊎ ((e : ExportedService) → In e l → text_eq (key e) (key es) ≡ false)
          → (e : ExportedService) × In e (es ∷ l)
            × (key e ≡ key es)
            × IsCurrent codec e (kv w (key es))
      first (inl (e, i, k)) =
          let (e', i', k', now) = x.published e i in (e', inr i', k' ∙ k, rw k at now)
      first (inr apart) = (es, inl refl, refl, rw (x.others (key es) apart) s.current)

  create_each-Exported :
      (l : List ExportedService) (w : World)
      → c.is_leader w ≡ true
      → Ready l w
      → Exported l w (create_each target l w).1
  create_each-Exported [] w leads ready =
      unfold create_each in
      record { published = λ e i. absurd i; others = λ j h. refl; leader = refl }
  create_each-Exported (es ∷ l) w leads ready =
      let (b, e) =
        create-ok c laws answers codec t es (key es) (hash es) (at_key es) (hashed es) w leads
          (ready es (inl refl)) in
      let s =
        create-Stored c laws answers codec t es (key es) (hash es) (at_key es) (hashed es) w trips
          leads (ready es (inl refl)) in
      let w' = (create c codec t es w).1 in
      rw (create_each-cons es l w b e) (
        Exported-cons es l w w' _ s (
          create_each-Exported l w' (s.others.leader ∙ leads)
            (Stored-Ready es l w w' s λ x i. ready x (inr i))))

  -- Let every call on Consul succeed, let encoding/json read back what it wrote, let every service have a
  -- key and a hash, and let what stands under the keys of the exported services of `s` be readable.
  -- Then, behind addService in the leader, each exported service of `s` has a current document under
  -- its key, or one that shares its key has, and no other key has changed.
  pub add_service-Exported :
      (unmarshal : Text → Option Json) (cluster_id : Text) (index : Text → Indexed) (s : Service)
      (l : List ExportedService) (w : World)
      → exported_of unmarshal cluster_id index s ≡ ok l
      → c.is_leader w ≡ true
      → Ready l w
      → Exported l w (add_service target unmarshal cluster_id index s w).1
  add_service-Exported unmarshal cluster_id index s l w e leads ready =
      rw (add_service-list target unmarshal cluster_id index s l w e)
        (create_each-Exported l w leads ready)
