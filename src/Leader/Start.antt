-- ===== src/Leader/Start.antt =====
-- NewConsulLeaderElector: what an elector is made of. Making a client of Consul is a parameter.
use kube_service_exporter.Base.{Option, Text}
use kube_service_exporter.Go.Run.{no_client, Run, ok, err, ◌>>=◌, or_else}
use kube_service_exporter.Leader.{Elector, new_elector}

-- capi.Config, with the fields that the program sets
pub record ConsulConfig : Type 0 where
  pub address : Text
  pub datacenter : Text

pub record ElectorParts (Client : Type 0) : Type 0 where
  pub client : Client
  pub client_id : Text
  pub cluster_id : Text
  pub prefix : Text
  pub state : Elector

module _ {Client : Type 0} (new_client : ConsulConfig → Option Client) where
  unfoldable pub new_consul_leader_elector :
      ConsulConfig → Text → Text → Text → Run (ElectorParts Client)
  unfolding new_elector
  new_consul_leader_elector cfg prefix cluster_id client_id = do
    client ← or_else (new_client cfg) (err no_client)
    ok (record {
      client = client;
      client_id = client_id;
      cluster_id = cluster_id;
      prefix = prefix;
      state = new_elector;
    })
