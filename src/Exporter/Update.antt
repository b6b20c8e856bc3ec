-- ===== src/Exporter/Update.antt =====
-- The first loop of updateService on the Consul target, in the leader, while every call on Consul succeeds.
use kube_service_exporter.Base.{
  ◌≡◌, refl, ◌∙◌, ◌⊎◌, inl, inr, Bool, true, false, none, some, List, [], ◌∷◌, map, arith,
  Bool-cases, Text, text_eq_iff, text_eq_self, text_eq, has_prefix,
}
use kube_service_exporter.Go.Run.{ok}
use kube_service_exporter.Util.{string_in_slice}
use kube_service_exporter.Export.{ExportedService, id}
use kube_service_exporter.ExportTarget.{ExportTarget}
use kube_service_exporter.Consul.{Consul, Laws}
use kube_service_exporter.Target.{TargetConfig, update}
use kube_service_exporter.Target.Document.{Codec, IsCurrent, RoundTrips}
use kube_service_exporter.Target.Calm.{consul_target}
use kube_service_exporter.Target.WriteNodes.{In}
use kube_service_exporter.Target.Replace.{Keyed, Swapped, update-Swapped}
use kube_service_exporter.Target.Reliable.{Answers, IsCurrent-Readable}
use kube_service_exporter.ServiceWatcher.{former, update_each}
use kube_service_exporter.ServiceWatcher.Former.{former-some}
use kube_service_exporter.Exporter.Publish.{shares, Published, Ready}

-- the Id of the service is not among those of the new services
abbrev pub Lost : List ExportedService → ExportedService → Type 0
Lost news o = string_in_slice (id o) (map id news) ≡ false

module _ {codec : Codec} {t : TargetConfig} (keyed : Keyed codec t)
    (olds news : List ExportedService) where
  open keyed use {key}

  -- Old and new services with the same Id have the same key, and no new service has a key that begins
  -- with the key of an old one whose Id is gone.
  pub record Separate : Type 0 where
    pub same_key : (o n : ExportedService) → In o olds → In n news → id o ≡ id n → key o ≡ key n
    pub apart :
        (o n : ExportedService)
        → In o olds
        → In n news
        → Lost news o
        → has_prefix (key o) (key n) ≡ false

  -- a key that does not begin with the key of an old service whose Id is gone
  abbrev pub Spared : Text → Type 0
  Spared j = (o : ExportedService) → In o olds → Lost news o → has_prefix (key o) j ≡ false

module _ (c : Consul) (laws : Laws c) (answers : Answers c) (codec : Codec)
    (trips : RoundTrips codec) (t : TargetConfig) (keyed : Keyed codec t)
    (olds news : List ExportedService) (separate : Separate keyed olds news) where
  open c use {World}
  open laws use {kv}
  open keyed use {key, hash, at_key, hashed}

  abbrev target : ExportTarget
  target = consul_target c codec t

  -- the services of the list are published, and no other key that is spared has changed
  pub record Progress (l : List ExportedService) (w w' : World) : Type 0 where
    pub published : Published c laws answers codec trips t keyed l w'
    pub others :
        (j : Text)
        → ((n : ExportedService) → In n l → text_eq (key n) j ≡ false)
        → Spared keyed olds news j
        → kv w' j ≡ kv w j
    pub leader : c.is_leader w' ≡ c.is_leader w

  -- what the old service of a new one may take with it
  sweeps :
      (n o : ExportedService) (j : Text)
      → In n news
      → former olds news n ≡ some o
      → text_eq (key o) (key n) ≡ false
      → Spared keyed olds news j
      → has_prefix (key o) j ≡ false
  sweeps n o j i e moved spared =
      let (i', why) = former-some olds news n o i e in
      elim why [
        | inl same ↦ absurd (both (separate.same_key o n i' i same))
        | inr lost ↦ spared o i' lost
      ]
    where
      both : key o ≡ key n → ⊥
      both f = ground (arith, text_eq_self (key n), rw f at moved)

  -- the new keys are spared
  new-Spared : (n : ExportedService) → In n news → Spared keyed olds news (key n)
  new-Spared n i o i' lost = separate.apart o n i' i lost

  Swap : ExportedService → World → World → Type 0
  Swap n w w' = Swapped c laws answers codec trips t keyed (former olds news n) n w w'

  Swap-others :
      (n : ExportedService) (w w' : World) (j : Text)
      → In n news
      → Swap n w w'
      → text_eq (key n) j ≡ false
      → Spared keyed olds news j
      → kv w' j ≡ kv w j
  unfolding Swap
  Swap-others n w w' j i s other spared =
      s.others j other λ o e moved. sweeps n o j i e moved spared

  Swap-Ready :
      (n : ExportedService) (l : List ExportedService) (w w' : World)
      → In n news
      → ((x : ExportedService) → In x l → In x news)
      → Swap n w w'
      → Ready c laws answers codec trips t keyed l w
      → Ready c laws answers codec trips t keyed l w'
  unfolding Swap
  Swap-Ready n l w w' i sub s ready x j = elim (Bool-cases (text_eq (key n) (key x))) [
    | inl same ↦
        IsCurrent-Readable codec n _ (rw ((text_eq_iff (key n) (key x)).0 same) at s.current)
    | inr other ↦ rw (Swap-others n w w' (key x) i s other (new-Spared x (sub x j))) (ready x j)
  ]

  Progress-cons :
      (n : ExportedService) (l : List ExportedService) (u v w : World)
      → In n news
      → Swap n u v
      → Progress l v w
      → Progress (n ∷ l) u w
  unfolding Swap
  Progress-cons n l u v w i s x = record {
    published = λ e. elim [
      | inl same ↦ rw same (first (shares keyed l (key n)))
      | inr j ↦ let (e', j', k, now) = x.published e j in (e', inr j', k, now)
    ];
    others = λ j h spared.
        x.others j (λ e j'. h e (inr j')) spared ∙ Swap-others n u v j i s (h n (inl refl)) spared;
    leader = x.leader ∙ s.leader;
  }
    where
      first :
          ((e : ExportedService) × In e l × (key e ≡ key n))
            ⊎ ((e : ExportedService) → In e l → text_eq (key e) (key n) ≡ false)
          → (e : ExportedService) × In e (n ∷ l)
            × (key e ≡ key n)
            × IsCurrent codec e (kv w (key n))
      first (inl (e, j, k)) =
          let (e', j', k', now) = x.published e j in (e', inr j', k' ∙ k, rw k at now)
      first (inr apart) =
          (n, inl refl, refl, rw (x.others (key n) apart (new-Spared n i)) s.current)

  update_each-cons :
      (n : ExportedService) (l : List ExportedService) (w w' : World) (b : Bool)
      → update c codec t (former olds news n) n w ≡ (ok (b, none), w')
      → update_each target olds news (n ∷ l) w ≡ update_each target olds news l w'
  unfolding update_each
  update_each-cons n l w w' b e = rw e refl

  -- the first loop of updateService
  pub update_each-Progress :
      (l : List ExportedService) (w : World)
      → ((x : ExportedService) → In x l → In x news)
      → c.is_leader w ≡ true
      → Ready c laws answers codec trips t keyed l w
      → (w' : World) × (update_each target olds news l w ≡ (ok tt, w')) × Progress l w w'
  unfolding Swap
  update_each-Progress [] w sub leads ready =
      unfold update_each in
      (w, refl, record { published = λ e i. absurd i; others = λ j h spared. refl; leader = refl })
  update_each-Progress (n ∷ l) w sub leads ready =
      let i = sub n (inl refl) in
      let (b, v, e, s) =
        update-Swapped c laws answers codec trips t keyed (former olds news n) n w leads
          (ready n (inl refl)) λ o f moved. sweeps n o (key n) i f moved (new-Spared n i) in
      let (w', f, x) =
        update_each-Progress l v (λ y j. sub y (inr j)) (s.leader ∙ leads)
          (Swap-Ready n l w v i (λ y j. sub y (inr j)) s λ y j. ready y (inr j)) in
      (w', update_each-cons n l w v b e ∙ f, Progress-cons n l w v w' i s x)
