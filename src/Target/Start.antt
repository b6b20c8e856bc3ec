-- ===== src/Target/Start.antt =====
-- NewConsulTarget: the host of the agent's address becomes the address of every service, and the calls on
-- Consul go through the instrumented client. Splitting an address and making a client are parameters.
use kube_service_exporter.Base.{ℕ, Bool, Option, List, Text}
use kube_service_exporter.Go.Run.{bad_address, no_client, Run, ok, err, ◌>>=◌, or_else}
use kube_service_exporter.Consul.{Consul}
use kube_service_exporter.Consul.Instrumented.{instrumented}
use kube_service_exporter.Target.{TargetConfig}

pub record ConsulTargetConfig : Type 0 where
  -- the address of `ConsulConfig`, with its port
  pub address : Text
  pub kv_prefix : Text
  pub services_key_tmpl : Text
  pub cluster_id : Text
  pub services_enabled : Bool

-- a client of Consul, with the clock that its metrics read
abbrev pub Client : Type 1
Client = (c : Consul) × (c.World → ℕ)

module _ (split_host : Text → Option Text) (new_client : Text → Option Client)
    (tags : List Text) where
  unfoldable pub new_consul_target : ConsulTargetConfig → Run (Consul × TargetConfig)
  new_consul_target cfg = do
    host ← or_else (split_host cfg.address) (err bad_address)
    client ← or_else (new_client cfg.address) (err no_client)
    ok (
      instrumented client.0 client.1 tags,
      record {
        host_ip = host;
        kv_prefix = cfg.kv_prefix;
        cluster_id = cfg.cluster_id;
        services_enabled = cfg.services_enabled;
        services_key_tmpl = cfg.services_key_tmpl;
      },
    )
