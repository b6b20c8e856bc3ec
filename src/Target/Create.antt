-- ===== src/Target/Create.antt =====
-- Create: what the leader writes for a service, and what others leave alone.
use kube_service_exporter.Base.{◌≡◌, refl, Bool, true, false, if◌then◌else◌, Text}
use kube_service_exporter.Go.Run.{Run, ok, err, panic}
use kube_service_exporter.Go.Act.{pure, Ends, Ends-pure, Post}
use kube_service_exporter.Export.{ExportedService}
use kube_service_exporter.Consul.{Consul, Laws}
use kube_service_exporter.Target.{TargetConfig, metadata_prefix, create_kv, create}
use kube_service_exporter.Target.Document.{Codec, RoundTrips, IsCurrent}
use kube_service_exporter.Target.Kv.{Same, SameBut, Same-refl, Same-SameBut}
use kube_service_exporter.Target.Store.{Stored, create-Ends, create_kv-Ends, create_kv-current}

-- what Create leaves behind: for the leader, a document with its hash under the service's key; else, nothing
abbrev pub CreatedFor :
    (c : Consul) → Laws c → Codec → ExportedService → Text → Bool → c.World → c.World → Type 0
CreatedFor c laws codec es key true w w' = Stored c laws codec es key w w'
CreatedFor c laws codec es key false w w' = Same c laws w w'

-- what a Create that fails leaves behind
abbrev pub FailedFor : (c : Consul) → Laws c → Text → Bool → c.World → c.World → Type 0
FailedFor c laws key true w w' = SameBut c laws key w w'
FailedFor c laws key false w w' = Same c laws w w'

module _ (c : Consul) (laws : Laws c) (codec : Codec) (t : TargetConfig) (es : ExportedService)
    (key : Text) (at_key : metadata_prefix codec t es ≡ ok key) (trips : RoundTrips codec) where
  open c use {World}
  open laws use {kv}

  -- Let `key` be the key of the service, and let encoding/json read back what it wrote. A Create that
  -- succeeds while this process is the leader leaves under the key a document with the hash of the
  -- service, and changes no other key; one that fails changes no other key. Without leadership nothing
  -- in the store changes, whether Create succeeds or not. It does not panic.
  pub create-kv :
      (w : World)
      → Post
          (λ b w'. CreatedFor c laws codec es key (c.is_leader w) w w')
          (λ w'. FailedFor c laws key (c.is_leader w) w w')
          (create c codec t es w).0
          (create c codec t es w).1
  create-kv w = go (c.is_leader w) refl
    where
      weak : (b : Bool) (w' : World) → Same c laws w w' → FailedFor c laws key b w w'
      weak true w' s = Same-SameBut c laws key s
      weak false w' s = s

      part :
          (b : Bool)
          → Ends
              (Same c laws w)
              (if b then create_kv c codec t es else pure true)
              (λ a w'. CreatedFor c laws codec es key b w w')
              (λ w'. FailedFor c laws key b w w')
      part true = create_kv-Ends c laws codec t es w key at_key trips
      part false = Ends-pure true λ w' p. p

      go :
          (b : Bool)
          → c.is_leader w ≡ b
          → Post
              (λ a w'. CreatedFor c laws codec es key b w w')
              (λ w'. FailedFor c laws key b w w')
              (create c codec t es w).0
              (create c codec t es w).1
      go b e = (create-Ends c laws codec t es w (weak b) (rw e (part b))).at w (Same-refl c laws w)

  -- Let encoding/json read back what it wrote. If the store has a document with the hash of the service
  -- under its key, as a Create of the leader leaves it, then a Create by the leader leaves the store as
  -- it is, whether or not that Create succeeds.
  pub create-create :
      (w : World)
      → c.is_leader w ≡ true
      → IsCurrent codec es (kv w key)
      → Same c laws w (create c codec t es w).1
  create-create w leads i = go (create c codec t es w).0 (
      (create-Ends c laws codec t es w (λ w' p. p)
          (rw leads (create_kv-current c laws codec t es w key at_key i))).at
        w (Same-refl c laws w))
    where
      go :
          (r : Run Bool)
          → Post (λ b w'. Same c laws w w') (λ w'. Same c laws w w') r (create c codec t es w).1
          → Same c laws w (create c codec t es w).1
      go (ok b) p = p
      go (err e) p = p
      go panic p = absurd p
