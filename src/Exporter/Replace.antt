-- ===== src/Exporter/Replace.antt =====
-- updateService on the Consul target: the store behind an update by the leader while every call on Consul
-- succeeds.
use kube_service_exporter.Base.{
  ◌≡◌, refl, sym, ◌∙◌, inl, inr, true, false, Option, none, some, List, [], ◌∷◌, map, Bool-cases,
  Text, text_eq, has_prefix,
}
use kube_service_exporter.Go.Run.{ok}
use kube_service_exporter.Go.Json.{Json}
use kube_service_exporter.Kube.{Service}
use kube_service_exporter.Util.{string_in_slice}
use kube_service_exporter.Export.{ExportedService, id, is_exportable_service, Indexed}
use kube_service_exporter.ExportTarget.{ExportTarget}
use kube_service_exporter.Consul.{Consul, Laws}
use kube_service_exporter.Target.{TargetConfig}
use kube_service_exporter.Target.Document.{Codec, RoundTrips}
use kube_service_exporter.Target.Calm.{consul_target}
use kube_service_exporter.Target.WriteNodes.{In}
use kube_service_exporter.Target.Replace.{Keyed}
use kube_service_exporter.Target.Reliable.{Answers}
use kube_service_exporter.ServiceWatcher.{
  update_each, delete_removed, exported_of, delete_service, update_service,
}
use kube_service_exporter.ServiceWatcher.Handlers.{
  listed, olds_of-listed, exported_of-not_exportable,
}
use kube_service_exporter.Exporter.Clear.{Cleared, delete_removed-Cleared}
use kube_service_exporter.Exporter.Publish.{Published, Ready}
use kube_service_exporter.Exporter.Withdraw.{
  below, Withdrawn, delete_service-ok, delete_service-Withdrawn,
}
use kube_service_exporter.Exporter.Update.{Lost, Separate, Spared, Progress, update_each-Progress}

-- no Id is among none
Spared-below :
    {codec : Codec} {t : TargetConfig} (keyed : Keyed codec t) (l : List ExportedService) (j : Text)
    → Spared keyed l [] j
    → below keyed l j ≡ false
unfolding below string_in_slice
Spared-below keyed [] j spared = refl
Spared-below keyed (es ∷ l) j spared =
    rw (spared es (inl refl) refl) (Spared-below keyed l j λ o i. spared o (inr i))

module _ (c : Consul) (laws : Laws c) (answers : Answers c) (codec : Codec)
    (trips : RoundTrips codec) (t : TargetConfig) (keyed : Keyed codec t) where
  open c use {World}
  open laws use {kv}
  open keyed use {key}

  -- The new services are published; whatever is below the keys of old ones whose Ids are gone is removed; no
  -- other key has changed.
  pub record Updated (olds news : List ExportedService) (w w' : World) : Type 0 where
    pub published : Published c laws answers codec trips t keyed news w'
    pub gone :
        (o : ExportedService) (j : Text)
        → In o olds
        → Lost news o
        → has_prefix (key o) j ≡ true
        → kv w' j ≡ none
    pub others :
        (j : Text)
        → ((n : ExportedService) → In n news → text_eq (key n) j ≡ false)
        → Spared keyed olds news j
        → kv w' j ≡ kv w j

  Progress-Cleared :
      (olds news : List ExportedService) (separate : Separate keyed olds news) (u v w : World)
      → Progress c laws answers codec trips t keyed olds news separate news u v
      → Cleared c laws answers codec t keyed news olds v w
      → Updated olds news u w
  Progress-Cleared olds news separate u v w p x = record {
    published = λ n i.
        let (n', i', k, now) = p.published n i in
        (n', i', k, rw (x.others (key n) λ o j lost. separate.apart o n j i lost) now);
    gone = x.gone;
    others = λ j h spared. x.others j spared ∙ p.others j h spared;
  }

  Withdrawn-Cleared :
      (olds : List ExportedService) (u v w : World)
      → Withdrawn c laws answers codec t keyed olds u v
      → Cleared c laws answers codec t keyed [] olds v w
      → Updated olds [] u w
  Withdrawn-Cleared olds u v w p x = record {
    published = λ n i. absurd i;
    gone = x.gone;
    others =
        λ j h spared. x.others j spared ∙ p.at_each j ∙ rw (Spared-below keyed olds j spared) refl;
  }

  module _ (unmarshal : Text → Option Json) (cluster_id : Text) (index : Text → Indexed)
      (old new : Service) where
    abbrev service_target : ExportTarget
    service_target = consul_target c codec t

    abbrev olds : List ExportedService
    olds = listed (exported_of unmarshal cluster_id index old)

    exportable_lem :
        (news : List ExportedService) (w v : World)
        → is_exportable_service new ≡ true
        → exported_of unmarshal cluster_id index new ≡ ok news
        → update_each service_target olds news news w ≡ (ok tt, v)
        → update_service service_target unmarshal cluster_id index (some old) new w
          ≡ delete_removed service_target (map id news) olds v
    unfolding update_service
    exportable_lem news w v h e f = rw (h, olds_of-listed unmarshal cluster_id index old, e, f) refl

    barred_lem :
        (w : World)
        → is_exportable_service new ≡ false
        → (delete_service service_target unmarshal cluster_id index (some old) w).0 ≡ ok tt
        → update_service service_target unmarshal cluster_id index (some old) new w
          ≡ delete_removed service_target [] olds
              (delete_service service_target unmarshal cluster_id index (some old) w).1
    unfolding update_service update_each
    barred_lem w h e =
        rw
          (
            h,
            e,
            olds_of-listed unmarshal cluster_id index old,
            exported_of-not_exportable unmarshal cluster_id index new h,
          )
          refl

    -- Let every call on Consul succeed, let encoding/json read back what it wrote, let every service have a
    -- key and a hash, let what stands under the new keys be readable, and let old and new services be
    -- separate. Then, behind updateService in the leader, each new exported service has a current
    -- document under its key, or one that shares its key has; nothing stands below the keys of old
    -- exported services whose Ids are gone; and no other key has changed. This holds too where the new
    -- Service is not exportable, and so has no exported services.
    pub update_service-Updated :
        (news : List ExportedService) (w : World)
        → exported_of unmarshal cluster_id index new ≡ ok news
        → c.is_leader w ≡ true
        → Ready c laws answers codec trips t keyed news w
        → Separate keyed olds news
        → Updated olds news w
            (update_service service_target unmarshal cluster_id index (some old) new w).1
    update_service-Updated news w e leads ready separate =
        elim (Bool-cases (is_exportable_service new)) [
          | inl exportable ↦
              let (v, f, p) =
                update_each-Progress c laws answers codec trips t keyed olds news separate news w
                  (λ x i. i) leads ready in
              rw (exportable_lem news w v exportable e f) (
                Progress-Cleared olds news separate w v _ p (
                  delete_removed-Cleared c laws answers codec t keyed news olds v
                    (p.leader ∙ leads)))
          | inr barred ↦
              let v = (delete_service service_target unmarshal cluster_id index (some old) w).1 in
              let p =
                delete_service-Withdrawn c laws answers codec t keyed unmarshal cluster_id index old
                  w leads in
              let done =
                delete_service-ok c laws answers codec t keyed unmarshal cluster_id index old w
                  leads in
              let nothing : [] ≡ news =
                ok_inj
                  (sym (exported_of-not_exportable unmarshal cluster_id index new barred) ∙ e) in
              rw (sym nothing, barred_lem w barred done)
                (Withdrawn-Cleared olds w v _ p (
                  delete_removed-Cleared c laws answers codec t keyed [] olds v (p.leader ∙ leads)))
        ]
      where
        ok_inj : {a b : List ExportedService} → ok a ≡ ok b → a ≡ b
        ok_inj f = cc
