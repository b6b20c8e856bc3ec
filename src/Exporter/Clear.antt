-- ===== src/Exporter/Clear.antt =====
-- The second loop of updateService on the Consul target: what it removes from the store.
use kube_service_exporter.Base.{
  ◌≡◌, refl, sym, ap, ◌∙◌, inl, inr, Bool, true, false, Option, none, List, [], ◌∷◌, map, arith,
  if◌then◌else◌, Bool-cases, Text, has_prefix,
}
use kube_service_exporter.Go.Run.{ok}
use kube_service_exporter.Util.{string_in_slice}
use kube_service_exporter.Export.{ExportedService, id}
use kube_service_exporter.ExportTarget.{ExportTarget}
use kube_service_exporter.Consul.{Consul, Laws}
use kube_service_exporter.Target.{TargetConfig, delete}
use kube_service_exporter.Target.Document.{Codec}
use kube_service_exporter.Target.Calm.{consul_target}
use kube_service_exporter.Target.WriteNodes.{In}
use kube_service_exporter.Target.Delete.{Pruned}
use kube_service_exporter.Target.Replace.{Keyed}
use kube_service_exporter.Target.Reliable.{Answers, delete-ok, delete-Pruned}
use kube_service_exporter.ServiceWatcher.{delete_removed}
use kube_service_exporter.Exporter.Update.{Lost, Spared}

module _ (c : Consul) (laws : Laws c) (answers : Answers c) (codec : Codec) (t : TargetConfig)
    (keyed : Keyed codec t) (news : List ExportedService) where
  open c use {World}
  open laws use {kv}
  open keyed use {key, hash, at_key, hashed}

  abbrev target : ExportTarget
  target = consul_target c codec t

  -- whatever is below the keys of the services whose Ids are gone is removed, and nothing else
  pub record Cleared (l : List ExportedService) (w w' : World) : Type 0 where
    pub gone :
        (o : ExportedService) (j : Text)
        → In o l
        → Lost news o
        → has_prefix (key o) j ≡ true
        → kv w' j ≡ none
    pub others : (j : Text) → Spared keyed l news j → kv w' j ≡ kv w j
    pub nothing_new : (j : Text) → kv w j ≡ none → kv w' j ≡ none
    pub leader : c.is_leader w' ≡ c.is_leader w

  kept-cons :
      (es : ExportedService) (l : List ExportedService) (w : World)
      → string_in_slice (id es) (map id news) ≡ true
      → delete_removed target (map id news) (es ∷ l) w ≡ delete_removed target (map id news) l w
  unfolding delete_removed
  kept-cons es l w h = rw h refl

  removed-cons :
      (es : ExportedService) (l : List ExportedService) (w : World) (b : Bool)
      → string_in_slice (id es) (map id news) ≡ false
      → (delete c codec t es w).0 ≡ ok b
      → delete_removed target (map id news) (es ∷ l) w
        ≡ delete_removed target (map id news) l (delete c codec t es w).1
  unfolding delete_removed
  removed-cons es l w b h e = rw (h, e) refl

  Cleared-kept :
      (es : ExportedService) (l : List ExportedService) (w w' : World)
      → string_in_slice (id es) (map id news) ≡ true
      → Cleared l w w'
      → Cleared (es ∷ l) w w'
  Cleared-kept es l w w' h x = record {
    gone = λ o j. elim [
      | inl same ↦ λ lost. absurd (ground (arith, h, rw same at lost))
      | inr i ↦ x.gone o j i
    ];
    others = λ j spared. x.others j λ o i. spared o (inr i);
    nothing_new = x.nothing_new;
    leader = x.leader;
  }

  Cleared-removed :
      (es : ExportedService) (l : List ExportedService) (u v w : World)
      → Lost news es
      → Pruned c laws (key es) u v
      → Cleared l v w
      → Cleared (es ∷ l) u w
  Cleared-removed es l u v w lost p x = record {
    gone = λ o j. elim [
      | inl same ↦
          λ h below_it. x.nothing_new j (p.at_key j ∙ rw (ap key (sym same)) (rw below_it refl))
      | inr i ↦ x.gone o j i
    ];
    others = λ j spared.
        x.others j (λ o i. spared o (inr i)) ∙ p.at_key j ∙ rw (spared es (inl refl) lost) refl;
    nothing_new = λ j h. x.nothing_new j (p.at_key j ∙ absent (has_prefix (key es) j) (kv u j) h);
    leader = x.leader ∙ p.leader;
  }
    where
      absent : (b : Bool) (o : Option Text) → o ≡ none → (if b then none else o) ≡ none
      absent true o h = refl
      absent false o h = h

  -- the second loop of updateService
  pub delete_removed-Cleared :
      (l : List ExportedService) (w : World)
      → c.is_leader w ≡ true
      → Cleared l w (delete_removed target (map id news) l w).1
  delete_removed-Cleared [] w leads =
      unfold delete_removed in
      record {
        gone = λ o j i. absurd i;
        others = λ j spared. refl;
        nothing_new = λ j h. h;
        leader = refl;
      }
  delete_removed-Cleared (es ∷ l) w leads =
      elim (Bool-cases (string_in_slice (id es) (map id news))) [
        | inl kept ↦
            rw (kept-cons es l w kept)
              (Cleared-kept es l w _ kept (delete_removed-Cleared l w leads))
        | inr lost ↦
            let (b, e) =
              delete-ok c laws answers codec t es (key es) (hash es) (at_key es) (hashed es) w
                leads in
            let p =
              delete-Pruned c laws answers codec t es (key es) (hash es) (at_key es) (hashed es) w
                leads in
            let v = (delete c codec t es w).1 in
            rw (removed-cons es l w b lost e)
              (Cleared-removed es l w v _ lost p (delete_removed-Cleared l v (p.leader ∙ leads)))
      ]
