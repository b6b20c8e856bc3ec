-- ===== src/Target/Follower.antt =====
-- What a process that does not lead leaves alone, and what Update keeps because Create and Delete do.
use kube_service_exporter.Base.{
  ◌≡◌, ◌∙◌, Bool, true, false, Option, none, some, if◌then◌else◌, text_eq,
}
use kube_service_exporter.Go.Run.{Run, ok, err, panic, deregister}
use kube_service_exporter.Go.Act.{pure, Ends-pure, Post}
use kube_service_exporter.Go.Keeps.{Preorder, Keeps, Keeps-pure, Keeps-if}
use kube_service_exporter.Export.{ExportedService, id}
use kube_service_exporter.Consul.{Consul, Laws}
use kube_service_exporter.Target.{
  TargetConfig, create, delete_kv, delete, prefix_or_empty, clean, update_after, update,
}
use kube_service_exporter.Target.Document.{Codec}
use kube_service_exporter.Target.Kv.{
  Same, Same-refl, Same-trans, deregister-Same, quiet-Ends, leader-Ends,
}
use kube_service_exporter.Target.Store.{create-Ends}

module _ (c : Consul) (codec : Codec) (t : TargetConfig) where
  open c use {World}

  module _ (R : World → World → Type 0) (o : Preorder R)
      (created : (es : ExportedService) → Keeps R (create c codec t es))
      (deleted : (es : ExportedService) → Keeps R (delete c codec t es)) where
    clean-Keeps :
        (old : Option ExportedService) (new : ExportedService) → Keeps R (clean c codec t old new)
    unfolding clean
    clean-Keeps none new = Keeps-pure R o false
    clean-Keeps (some old) new =
        Keeps-if R o (text_eq (prefix_or_empty codec t old) (prefix_or_empty codec t new))
          (Keeps-pure R o false) (deleted old)

    update_after-kept :
        (old : Option ExportedService) (new : ExportedService) (r : Run Bool) (w : World)
        → R w (update_after c codec t old new r w).1
    unfolding update_after
    update_after-kept old new (ok b) w = (clean-Keeps old new).at w
    update_after-kept old new (err e) w = o.stays w
    update_after-kept old new panic w = o.stays w

    -- Update keeps what Create and Delete keep
    pub update-Keeps :
        (old : Option ExportedService) (new : ExportedService) → Keeps R (update c codec t old new)
    unfolding update
    update-Keeps old new = record {
      at = λ w.
          o.joins w (create c codec t new w).1 _ ((created new).at w)
            (update_after-kept old new (create c codec t new w).0 (create c codec t new w).1);
    }

  module _ (laws : Laws c) where
    -- a process that does not lead changes nothing in the store, and does not lead afterwards
    pub record Idle (w w' : World) : Type 0 where
      pub same : c.is_leader w ≡ false → Same c laws w w'

    pub Idle-Preorder : Preorder Idle
    Idle-Preorder = record {
      stays = λ w. record { same = λ h. Same-refl c laws w };
      joins = λ u v w p q. record {
        same = λ h. Same-trans c laws (p.same h) (q.same ((p.same h).leader ∙ h));
      };
    }

    either :
        {A : Type 0} (w : World) (r : Run A) (w' : World)
        → Post (λ a. Same c laws w) (Same c laws w) r w'
        → Same c laws w w'
    either w (ok a) w' p = p
    either w (err e) w' p = p
    either w panic w' p = absurd p

    pub create-Idle : (es : ExportedService) → Keeps Idle (create c codec t es)
    create-Idle es = record {
      at = λ w. record {
        same = λ h. either w (create c codec t es w).0 (create c codec t es w).1 (
            (create-Ends c laws codec t es w (λ w' p. p) (rw h (Ends-pure true λ w' p. p))).at w
              (Same-refl c laws w));
      };
    }

    pub delete-Idle : (es : ExportedService) → Keeps Idle (delete c codec t es)
    unfolding delete
    delete-Idle es = record {
      at = λ w. record {
        same = λ h. either w (delete c codec t es w).0 (delete c codec t es w).1 (
            (quiet-Ends c laws w (λ w' p. p) deregister (c.deregister (id es))
                (deregister-Same c laws (id es))
                λ u.
                  leader-Ends c laws w (λ w' p. p)
                    (λ leader. if leader then delete_kv c codec t es else pure true)
                    (rw h (Ends-pure true λ w' p. p))).at
              w (Same-refl c laws w));
      };
    }
