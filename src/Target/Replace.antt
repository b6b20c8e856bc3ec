-- ===== src/Target/Replace.antt =====
-- Update by the leader while every call on Consul succeeds: what it leaves in the store.
use kube_service_exporter.Base.{
  ◌≡◌, refl, ◌∙◌, inl, inr, Bool, true, false, Option, none, some, Bool-cases, Text, text_eq,
  has_prefix,
}
use kube_service_exporter.Go.Run.{Run, ok}
use kube_service_exporter.Export.{ExportedService}
use kube_service_exporter.Consul.{Consul, Laws}
use kube_service_exporter.Target.{
  TargetConfig, metadata_prefix, create, delete, clean, update_clean, update_after, update,
}
use kube_service_exporter.Target.Document.{Codec, hash_text, RoundTrips, IsCurrent}
use kube_service_exporter.Target.Store.{Stored}
use kube_service_exporter.Target.Delete.{Pruned}
use kube_service_exporter.Target.Update.{clean_lem}
use kube_service_exporter.Target.Reliable.{
  Answers, Readable, create-ok, create-Stored, delete-ok, delete-Pruned,
}

-- every service has a key and a hash
pub record Keyed (codec : Codec) (t : TargetConfig) : Type 0 where
  pub key : ExportedService → Text
  pub hash : ExportedService → Text
  pub at_key : (es : ExportedService) → metadata_prefix codec t es ≡ ok (key es)
  pub hashed : (es : ExportedService) → hash_text codec es ≡ ok (hash es)

module _ (c : Consul) (codec : Codec) (t : TargetConfig) where
  open c use {World}

  -- a Create and a clean-up that succeed
  update-cleaned :
      (old : Option ExportedService) (new : ExportedService) (w w' : World) (b r : Bool)
      → (create c codec t new w).0 ≡ ok b
      → clean c codec t old new (create c codec t new w).1 ≡ (ok r, w')
      → update c codec t old new w ≡ (ok (b, none), w')
  unfolding update update_after update_clean
  update-cleaned old new w w' b r e f = rw (e, f) refl

  clean-none : (new : ExportedService) (w : World) → clean c codec t none new w ≡ (ok false, w)
  unfolding clean
  clean-none new w = refl

module _ (c : Consul) (laws : Laws c) (answers : Answers c) (codec : Codec)
    (trips : RoundTrips codec) (t : TargetConfig) (keyed : Keyed codec t) where
  open c use {World}
  open laws use {kv}
  open keyed use {key, hash, at_key, hashed}

  -- the document of `new` stands under its key. All else is as it was, but for what is below the key of
  -- `old` if that is another one.
  pub record Swapped (old : Option ExportedService) (new : ExportedService) (w w' : World)
      : Type 0 where
    pub current : IsCurrent codec new (kv w' (key new))
    pub others :
        (j : Text)
        → text_eq (key new) j ≡ false
        → ((o : ExportedService)
            → old ≡ some o
            → text_eq (key o) (key new) ≡ false
            → has_prefix (key o) j ≡ false)
        → kv w' j ≡ kv w j
    pub leader : c.is_leader w' ≡ c.is_leader w

  -- Update succeeds
  pub update-Swapped :
      (old : Option ExportedService) (new : ExportedService) (w : World)
      → c.is_leader w ≡ true
      → Readable codec (kv w (key new))
      → ((o : ExportedService)
          → old ≡ some o
          → text_eq (key o) (key new) ≡ false
          → has_prefix (key o) (key new) ≡ false)
      → (b : Bool) × (w' : World) × (update c codec t old new w ≡ (ok (b, none), w'))
        × Swapped old new w w'
  update-Swapped old new w leads readable apart = go old refl
    where
      created : (b : Bool) × ((create c codec t new w).0 ≡ ok b)
      created =
          create-ok c laws answers codec t new (key new) (hash new) (at_key new) (hashed new) w
            leads readable

      v : World
      v = (create c codec t new w).1

      s : Stored c laws codec new (key new) w v
      s =
          create-Stored c laws answers codec t new (key new) (hash new) (at_key new) (hashed new) w
            trips leads readable

      Goal : Option ExportedService → Type 0
      Goal x =
          (b : Bool) × (w' : World) × (update c codec t x new w ≡ (ok (b, none), w'))
          × Swapped x new w w'

      stays : (x : Option ExportedService) → clean c codec t x new v ≡ (ok false, v) → Goal x
      stays x e = (
        created.0,
        v,
        update-cleaned c codec t x new w v created.0 false created.1 e,
        record {
          current = s.current;
          others = λ j h _. s.others.at_key j h;
          leader = s.others.leader;
        },
      )

      deleted : (o : ExportedService) → (b : Bool) × ((delete c codec t o v).0 ≡ ok b)
      deleted o =
          delete-ok c laws answers codec t o (key o) (hash o) (at_key o) (hashed o) v
            (s.others.leader ∙ leads)

      pruned : (o : ExportedService) → Pruned c laws (key o) v (delete c codec t o v).1
      pruned o =
          delete-Pruned c laws answers codec t o (key o) (hash o) (at_key o) (hashed o) v
            (s.others.leader ∙ leads)

      both : {b : Bool} (p : Run Bool × World) → p.0 ≡ ok b → p ≡ (ok b, p.1)
      both (r, x) h = rw h refl

      go : (x : Option ExportedService) → old ≡ x → Goal x
      go none e = stays none (clean-none c codec t new v)
      go (some o) e = elim (Bool-cases (text_eq (key o) (key new))) [
        | inl same ↦ stays (some o) (
            rw (clean_lem c laws codec t o new (key o) (key new) (at_key o) (at_key new), same)
              refl)
        | inr moved ↦ (
          created.0,
          (delete c codec t o v).1,
          update-cleaned c codec t (some o) new w (delete c codec t o v).1 created.0 (deleted o).0
              created.1
              (rw (clean_lem c laws codec t o new (key o) (key new) (at_key o) (at_key new), moved)
                (both (delete c codec t o v) (deleted o).1)),
          record {
            current = rw ((pruned o).at_key (key new), apart o e moved) s.current;
            others =
                λ j h under. (pruned o).at_key j ∙ rw (under o refl moved) (s.others.at_key j h);
            leader = (pruned o).leader ∙ s.others.leader;
          },
        )
      ]
