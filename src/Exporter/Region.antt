-- ===== src/Exporter/Region.antt =====
-- What the service watcher leaves alone in the key-value store, whatever comes through its queue.
use kube_service_exporter.Base.{ℕ, ◌≡◌, false, Option, Text, has_prefix}
use kube_service_exporter.Go.Json.{Json}
use kube_service_exporter.Go.Keeps.{Preorder, Keeps}
use kube_service_exporter.Export.{ExportedService, Indexed}
use kube_service_exporter.ExportTarget.{ExportTarget}
use kube_service_exporter.Consul.{Consul, Laws}
use kube_service_exporter.Target.{TargetConfig, create, delete}
use kube_service_exporter.Target.Document.{Codec}
use kube_service_exporter.Target.Calm.{consul_target}
use kube_service_exporter.Target.Region.{
  services_region, Outside, Outside-Preorder, create-Outside, delete-Outside,
}
use kube_service_exporter.Target.Follower.{
  update-Keeps, Idle, Idle-Preorder, create-Idle, delete-Idle,
}
use kube_service_exporter.ServiceWatcher.{Queue}
use kube_service_exporter.ServiceWatcher.Process.{State, run_worker}
use kube_service_exporter.Exporter.Keeps.{Steady, run_worker-Turn}

module _ (c : Consul) (laws : Laws c) (codec : Codec) (t : TargetConfig) where
  open c use {World}
  open laws use {kv}

  abbrev target : ExportTarget
  target = consul_target c codec t

  -- the calls of the watchers on the target are the calls of ConsulTarget with other results
  steady :
      (R : World → World → Type 0)
      → Preorder R
      → ((es : ExportedService) → Keeps R (create c codec t es))
      → ((es : ExportedService) → Keeps R (delete c codec t es))
      → Steady target R
  steady R o created deleted = record {
    order = o;
    on_create = λ es. record { at = (created es).at };
    on_update = λ old es. record { at = (update-Keeps c codec t R o created deleted old es).at };
    on_delete = λ es. record { at = (deleted es).at };
  }

  module _ (Q : Queue) (unmarshal : Text → Option Json) (cluster_id : Text)
      (index : Text → Indexed) where
    -- On the Consul target, a run of the worker changes no key of the store that does not begin with the
    -- key-value prefix followed by "/services/", whatever waits in the queue, whatever the index
    -- answers, whether or not calls on Consul fail, and also if the run ends in a panic.
    pub run_worker-outside :
        (fuel : ℕ) (s : State target Q) (j : Text)
        → has_prefix (services_region t) j ≡ false
        → kv (run_worker target Q unmarshal cluster_id index fuel s).1.world j ≡ kv s.world j
    run_worker-outside fuel s j h =
        (run_worker-Turn target (Outside c laws codec t)
            (steady (Outside c laws codec t) (Outside-Preorder c laws codec t)
              (create-Outside c laws codec t) (delete-Outside c laws codec t))
            unmarshal cluster_id index Q fuel s).at_key
          j h

    -- On the Consul target, a run of the worker in a process that does not lead changes no key of the
    -- store at all, whatever waits in the queue and whatever the index answers.
    pub run_worker-follower :
        (fuel : ℕ) (s : State target Q) (j : Text)
        → c.is_leader s.world ≡ false
        → kv (run_worker target Q unmarshal cluster_id index fuel s).1.world j ≡ kv s.world j
    run_worker-follower fuel s j h =
        ((run_worker-Turn target (Idle c codec t laws)
              (steady (Idle c codec t laws) (Idle-Preorder c codec t laws)
                (create-Idle c codec t laws) (delete-Idle c codec t laws))
              unmarshal cluster_id index Q fuel s).same
            h).at_key
          j
