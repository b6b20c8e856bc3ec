-- ===== src/ServiceWatcher/Informer.antt =====
-- The configuration of the informers, in pkg/controller/service_watcher.go and node_watcher.go. Loading the
-- configuration of the cluster and making a client of it are parameters; a period is a number of minutes.
use kube_service_exporter.Base.{Option}
use kube_service_exporter.Go.Run.{no_kube_client, Run, ok, err, ◌>>=◌, or_else}
use kube_service_exporter.Go.Int.{ℤ, pos}

module _ {Config ClientSet : Type 0} (client_config : Option Config)
    (new_for_config : Config → Option ClientSet) where
  -- NewClientSet
  unfoldable pub new_client_set : Run ClientSet
  new_client_set = do
    config ← or_else client_config (err no_kube_client)
    or_else (new_for_config config) (err no_kube_client)

pub record InformerConfig (ClientSet : Type 0) : Type 0 where
  pub client_set : ClientSet
  pub resync_minutes : ℤ

module _ {ClientSet : Type 0} where
  -- NewInformerConfig
  unfoldable pub new_informer_config : Run ClientSet → ℤ → Run (InformerConfig ClientSet)
  new_informer_config clients resync_period = do
    cs ← clients
    ok (record { client_set = cs; resync_minutes = resync_period })

  -- NewNodeInformerConfig
  unfoldable pub new_node_informer_config : Run ClientSet → Run (InformerConfig ClientSet)
  new_node_informer_config clients = do
    cs ← clients
    ok (record { client_set = cs; resync_minutes = pos 15 })
