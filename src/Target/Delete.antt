-- ===== src/Target/Delete.antt =====
-- Delete and Update: which keys are removed.
use kube_service_exporter.Base.{
  ◌≡◌, ap, ◌∙◌, ◌⊎◌, inl, inr, Bool, true, false, none, if◌then◌else◌, Text, has_prefix,
}
use kube_service_exporter.Go.Run.{ok, deregister, kv_delete}
use kube_service_exporter.Go.Act.{pure, Ends, Ends-bind, Ends-pure, Ends-attempt, Post}
use kube_service_exporter.Export.{ExportedService, id}
use kube_service_exporter.Consul.{Consul, Laws}
use kube_service_exporter.Target.{TargetConfig, metadata_prefix, delete_kv, delete}
use kube_service_exporter.Target.Document.{Codec}
use kube_service_exporter.Target.Kv.{Same, Same-refl, deregister-Same, quiet-Ends, leader-Ends}

module _ (c : Consul) (laws : Laws c) where
  open c use {World}
  open laws use {kv}

  -- exactly the keys that begin with `prefix` are gone
  pub record Pruned (prefix : Text) (w w' : World) : Type 0 where
    pub at_key : (j : Text) → kv w' j ≡ (if has_prefix prefix j then none else kv w j)
    pub leader : c.is_leader w' ≡ c.is_leader w

  -- a key that begins with `prefix` may be gone, and nothing else has changed
  pub record PartlyPruned (prefix : Text) (w w' : World) : Type 0 where
    pub at_key : (j : Text) → (kv w' j ≡ kv w j) ⊎ ((has_prefix prefix j ≡ true) × (kv w' j ≡ none))
    pub leader : c.is_leader w' ≡ c.is_leader w

  Same-PartlyPruned : (prefix : Text) {w w' : World} → Same c laws w w' → PartlyPruned prefix w w'
  Same-PartlyPruned prefix s = record { at_key = λ j. inl (s.at_key j); leader = s.leader }

  -- what a Delete that fails leaves behind
  abbrev pub NotDeletedFor : Text → Bool → World → World → Type 0
  NotDeletedFor prefix true w w' = PartlyPruned prefix w w'
  NotDeletedFor prefix false w w' = Same c laws w w'

  -- what a Delete that succeeds leaves behind
  abbrev pub DeletedFor : Text → Bool → World → World → Type 0
  DeletedFor prefix true w w' = Pruned prefix w w'
  DeletedFor prefix false w w' = Same c laws w w'

  module _ (codec : Codec) (t : TargetConfig) (es : ExportedService) (prefix : Text)
      (at_key : metadata_prefix codec t es ≡ ok prefix) where
    delete_kv-Ends :
        (w₀ : World)
        → Ends
            (Same c laws w₀)
            (delete_kv c codec t es)
            (λ b w. Pruned prefix w₀ w)
            (PartlyPruned prefix w₀)
    unfolding delete_kv
    delete_kv-Ends w₀ = rw at_key (
        Ends-bind
          (Ends-attempt kv_delete (c.delete_tree prefix)
            (λ w p u h. record {
              at_key = λ j.
                  laws.delete_ok prefix w j h
                  ∙ ap (λ o. if has_prefix prefix j then none else o) (p.at_key j);
              leader = laws.delete_leader prefix w ∙ p.leader;
            })
            (λ w p h. record {
              at_key = λ j. elim (laws.delete_failed prefix w j h) [
                | inl kept ↦ inl (kept ∙ p.at_key j)
                | inr gone ↦ inr gone
              ];
              leader = laws.delete_leader prefix w ∙ p.leader;
            }))
          λ u. Ends-pure true λ w p. p)

    -- A Delete by the leader that succeeds removes exactly the keys that begin with the service's own
    -- key. One that fails changes no other key, and each of those is as it was or gone, where the same is
    -- known of a recursive delete that fails. Without leadership the store stays as it is. Delete does
    -- not panic.
    pub delete-kv :
        (w : World)
        → Post
            (λ b w'. DeletedFor prefix (c.is_leader w) w w')
            (λ w'. NotDeletedFor prefix (c.is_leader w) w w')
            (delete c codec t es w).0
            (delete c codec t es w).1
    unfolding delete
    delete-kv w =
        (quiet-Ends c laws w (weak (c.is_leader w)) deregister (c.deregister (id es))
            (deregister-Same c laws (id es))
            λ u.
              leader-Ends c laws w (weak (c.is_leader w))
                (λ leader. if leader then delete_kv c codec t es else pure true)
                (part (c.is_leader w))).at
          w (Same-refl c laws w)
      where
        weak : (b : Bool) (w' : World) → Same c laws w w' → NotDeletedFor prefix b w w'
        weak true w' s = Same-PartlyPruned prefix s
        weak false w' s = s

        part :
            (b : Bool)
            → Ends
                (Same c laws w)
                (if b then delete_kv c codec t es else pure true)
                (λ a w'. DeletedFor prefix b w w')
                (NotDeletedFor prefix b w)
        part true = delete_kv-Ends w
        part false = Ends-pure true λ w' p. p
