-- ===== src/Target/Update.antt =====
-- Update: a document with the new hash is there, and the old one is removed if its key changed. And what the
-- removal by prefix does to clusters whose ids begin alike.
use kube_service_exporter.Base.{
  ◌≡◌, refl, sym, ap, ◌∙◌, Bool, true, false, none, some, [], ◌∷◌, ◌++◌, append_assoc, arith,
  if◌then◌else◌, Text, codes, text_eq, has_prefix,
}
use kube_service_exporter.Go.Run.{Run, ok, err, panic}
use kube_service_exporter.Go.Act.{Post, pure}
use kube_service_exporter.Export.{ExportedService, id}
use kube_service_exporter.Consul.{Consul, Laws}
use kube_service_exporter.Target.{
  TargetConfig, metadata_prefix, prefix_or_empty, create, delete, clean, update, update_clean,
  update_after, slash,
}
use kube_service_exporter.Target.Document.{Codec, RoundTrips, IsCurrent}
use kube_service_exporter.Target.Kv.{SameBut}
use kube_service_exporter.Target.Store.{Stored}
use kube_service_exporter.Target.Create.{create-kv}
use kube_service_exporter.Target.Delete.{Pruned, DeletedFor, NotDeletedFor, delete-kv}

module _ (c : Consul) (laws : Laws c) (codec : Codec) (t : TargetConfig) where
  open c use {World}
  open laws use {kv}

  -- a document with the hash of `new` stands under its key, everything below the old key is gone, and all
  -- else is as it was
  pub record Replaced (new : ExportedService) (old_key new_key : Text) (w w' : World) : Type 0 where
    pub current : IsCurrent codec new (kv w' new_key)
    pub others :
        (j : Text)
        → text_eq new_key j ≡ false
        → kv w' j ≡ (if has_prefix old_key j then none else kv w j)

  -- what an Update by the leader that reports no error leaves behind
  abbrev pub UpdatedFor : Bool → ExportedService → Text → Text → World → World → Type 0
  UpdatedFor true new old_key new_key w w' = Stored c laws codec new new_key w w'
  UpdatedFor false new old_key new_key w w' = Replaced new old_key new_key w w'

  module _ (old new : ExportedService) (old_key new_key : Text)
      (at_old : metadata_prefix codec t old ≡ ok old_key)
      (at_new : metadata_prefix codec t new ≡ ok new_key) where
    Stored-Pruned :
        (u v w : World)
        → has_prefix old_key new_key ≡ false
        → Stored c laws codec new new_key u v
        → Pruned c laws old_key v w
        → Replaced new old_key new_key u w
    Stored-Pruned u v w apart s p = record {
      current = rw (p.at_key new_key, apart) s.current;
      others = λ j h.
          p.at_key j ∙ ap (λ o. if has_prefix old_key j then none else o) (s.others.at_key j h);
    }

    prefix_or_empty-ok :
        (es : ExportedService) (k : Text)
        → metadata_prefix codec t es ≡ ok k
        → prefix_or_empty codec t es ≡ k
    unfolding prefix_or_empty
    prefix_or_empty-ok es k e = rw (e, prefix_or_empty)

    pub clean_lem :
        clean c codec t (some old) new
        ≡ (if text_eq old_key new_key then pure false else delete c codec t old)
    unfolding clean
    clean_lem = rw (prefix_or_empty-ok old old_key at_old, prefix_or_empty-ok new new_key at_new)

    -- what `clean` does, behind a Create of the new service
    clean-kv :
        (same : Bool) (u v : World)
        → (same ≡ false → has_prefix old_key new_key ≡ false)
        → c.is_leader v ≡ true
        → Stored c laws codec new new_key u v
        → (b : Bool) → ((if same then pure false else delete c codec t old) v).0 ≡ ok b
        → UpdatedFor same new old_key new_key u
            ((if same then pure false else delete c codec t old) v).1
    clean-kv true u v apart leads s b h = s
    clean-kv false u v apart leads s b h =
        let p : Post (λ b w'. DeletedFor c laws old_key true v w')
            (λ w'. NotDeletedFor c laws old_key true v w') (delete c codec t old v).0
            (delete c codec t old v).1 =
          rw leads at (delete-kv c laws codec t old old_key at_old v) in
        let q : Post (λ b w'. DeletedFor c laws old_key true v w')
            (λ w'. NotDeletedFor c laws old_key true v w') (ok b) (delete c codec t old v).1 =
          rw h at p in
        Stored-Pruned u v _ (apart refl) s q

    finish :
        (created : Bool) (u v : World) (b : Bool) (r : Run Bool)
        → (text_eq old_key new_key ≡ false → has_prefix old_key new_key ≡ false)
        → c.is_leader v ≡ true
        → Stored c laws codec new new_key u v
        → (clean c codec t (some old) new v).0 ≡ r
        → update_clean created r ≡ ok (b, none)
        → UpdatedFor
            (text_eq old_key new_key)
            new
            old_key
            new_key
            u
            (clean c codec t (some old) new v).1
    unfolding update_clean
    finish created u v b (ok removed) apart leads s e h =
        rw clean_lem
          (clean-kv (text_eq old_key new_key) u v apart leads s removed (rw clean_lem at e))
    finish created u v b (err x) apart leads s e h = absurd (ground arith)
    finish created u v b panic apart leads s e h = cc

    update_after-kv :
        (u v : World) (b : Bool) (r : Run Bool)
        → (text_eq old_key new_key ≡ false → has_prefix old_key new_key ≡ false)
        → c.is_leader u ≡ true
        → Post
            (λ a w'. Stored c laws codec new new_key u w')
            (λ w'. SameBut c laws new_key u w')
            r
            v
        → (update_after c codec t (some old) new r v).0 ≡ ok (b, none)
        → UpdatedFor
            (text_eq old_key new_key)
            new
            old_key
            new_key
            u
            (update_after c codec t (some old) new r v).1
    unfolding update_after
    update_after-kv u v b (ok created) apart leads s h =
        finish created u v b (clean c codec t (some old) new v).0 apart (s.others.leader ∙ leads) s
          refl h
    update_after-kv u v b (err x) apart leads s h = absurd (ground arith)
    update_after-kv u v b panic apart leads s h = absurd s

    -- Let encoding/json read back what it wrote, let `old_key` and `new_key` be the keys of the two
    -- services, and let the new one not begin with
    -- the old one if they differ. After an Update by the leader that reports no error, a document with the
    -- hash of the new service stands under its key: what else it holds is not said, as Update compares
    -- hashes only. If the keys are the same, no other key has changed; else
    -- everything that begins with the old key is gone, and no other key has changed.
    pub update-kv :
        RoundTrips codec
        → (w : World) (b : Bool) → c.is_leader w ≡ true
        → (text_eq old_key new_key ≡ false → has_prefix old_key new_key ≡ false)
        → (update c codec t (some old) new w).0 ≡ ok (b, none)
        → UpdatedFor
            (text_eq old_key new_key)
            new
            old_key
            new_key
            w
            (update c codec t (some old) new w).1
    unfolding update
    update-kv trips w b leads apart h =
        update_after-kv w (create c codec t new w).1 b (create c codec t new w).0 apart leads
          (rw leads at (create-kv c laws codec t new new_key at_new trips w)) h

-- a text begins with its own beginning
pub has_prefix-append : (s d : Text) → has_prefix s (s ++ d) ≡ true
unfolding has_prefix
has_prefix-append [] d = refl
has_prefix-append (a ∷ s) d = ground (arith, has_prefix-append s d)

-- the same service on another cluster
abbrev pub on_cluster : ExportedService → Text → ExportedService
on_cluster es cluster = record es { cluster_id = cluster }

module _ (c : Consul) (laws : Laws c) (codec : Codec) (t : TargetConfig)
    (no_template : t.services_key_tmpl ≡ []) where
  open c use {World}
  open laws use {kv}

  id-shared :
      (es : ExportedService) (cluster : Text)
      → es.service_per_cluster ≡ false
      → id (on_cluster es cluster) ≡ id es
  unfolding id
  id-shared es cluster e = rw e

  abbrev shared_key : ExportedService → Text → Text
  shared_key es cluster =
      slash t.kv_prefix
        (slash (codes "services") (slash (id es) (slash (codes "clusters") cluster)))

  metadata_prefix-cluster :
      (es : ExportedService) (cluster : Text)
      → es.service_per_cluster ≡ false
      → metadata_prefix codec t (on_cluster es cluster) ≡ ok (shared_key es cluster)
  unfolding metadata_prefix
  metadata_prefix-cluster es cluster e = rw (no_template, id-shared es cluster e)

  shared_key-append :
      (es : ExportedService) (cluster d : Text)
      → shared_key es (cluster ++ d) ≡ shared_key es cluster ++ d
  shared_key-append es cluster d = simp append_assoc

  -- A service that is shared between clusters is deleted on one of them. If that succeeds on the
  -- leader, the store has no document of the service for any cluster whose id begins with the id of
  -- that cluster: those of other clusters are removed too.
  pub delete-longer_cluster :
      (es : ExportedService) (cluster d : Text)
      → es.service_per_cluster ≡ false
      → (w : World) (b : Bool) → c.is_leader w ≡ true
      → (delete c codec t (on_cluster es cluster) w).0 ≡ ok b
      → (key : Text) → metadata_prefix codec t (on_cluster es (cluster ++ d)) ≡ ok key
      → kv (delete c codec t (on_cluster es cluster) w).1 key ≡ none
  delete-longer_cluster es cluster d e w b leads h key at_key =
      let mine = metadata_prefix-cluster es cluster e in
      let theirs = metadata_prefix-cluster es (cluster ++ d) e in
      let same : key ≡ shared_key es cluster ++ d =
        ok_inj (sym at_key ∙ theirs) ∙ shared_key-append es cluster d in
      let p : Post (λ b w'. DeletedFor c laws (shared_key es cluster) true w w')
          (λ w'. NotDeletedFor c laws (shared_key es cluster) true w w')
          (delete c codec t (on_cluster es cluster) w).0
          (delete c codec t (on_cluster es cluster) w).1 =
        rw leads at
          (delete-kv c laws codec t (on_cluster es cluster) (shared_key es cluster) mine w) in
      let q : Post (λ b w'. DeletedFor c laws (shared_key es cluster) true w w')
          (λ w'. NotDeletedFor c laws (shared_key es cluster) true w w') (ok b)
          (delete c codec t (on_cluster es cluster) w).1 =
        rw h at p in
      rw same (
        q.at_key (shared_key es cluster ++ d)
        ∙ rw (has_prefix-append (shared_key es cluster) d) refl)
    where
      ok_inj : {a b : Text} → ok a ≡ ok b → a ≡ b
      ok_inj e = cc
