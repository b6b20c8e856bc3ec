-- ===== src/Main/Start.antt =====
-- main up to the start of its goroutines: what it checks and builds, in order. The answers of the calls into
-- other libraries are parameters of a start. Logs are left out, and the metric "start".
use kube_service_exporter.Base.{
  ℕ, Bool, not, Option, none, some, List, [], ◌∷◌, if◌then◌else◌, Text, codes,
}
use kube_service_exporter.Go.Int.{ℤ}
use kube_service_exporter.Go.Run.{Run}
use kube_service_exporter.Util.{Selectors, no_selector, bad_selectors, parsed, parse_node_selectors}
use kube_service_exporter.Stats.Client.{Client, initial_client, configure, host_port}
use kube_service_exporter.Consul.{Consul}
use kube_service_exporter.Target.{TargetConfig}
use kube_service_exporter.Target.Start.{ConsulTargetConfig, new_consul_target}
use kube_service_exporter.Target.Start
use kube_service_exporter.ServiceWatcher.Informer.{
  InformerConfig, new_client_set, new_informer_config, new_node_informer_config,
}
use kube_service_exporter.Leader.Start.{ConsulConfig, ElectorParts, new_consul_leader_elector}
use kube_service_exporter.Server.{Server, new_server}
use kube_service_exporter.Main.Settings.{Settings}
use kube_service_exporter.Main.Startup.{
  cluster_id_unset, bad_node_selectors, dogstatsd, service_informer, node_informer, consul_lookup,
  leader_election, consul_target_setup, Startup, started, fatal, crashed, ◌>>=◌, ◌>>◌, or_fatal,
}

-- what other libraries answer during a start
pub record Outside : Type 1 where
  pub KubeConfig : Type 0
  pub ClientSet : Type 0
  pub LeaderClient : Type 0
  -- json.Unmarshal into a list of texts
  pub decode_selectors : Text → Option (List Text)
  -- whether statsd.New takes an address
  pub statsd_accepts : Text → Bool
  -- the configuration of the cluster, when it is loaded for the services and for the nodes
  pub service_config : Option KubeConfig
  pub node_config : Option KubeConfig
  pub new_for_config : KubeConfig → Option ClientSet
  -- net.LookupIP
  pub lookup_ip : Text → Option (List Text)
  -- capi.DefaultConfig and capi.NewClient
  pub default_config : ConsulConfig
  pub leader_client : ConsulConfig → Option LeaderClient
  pub target_client : ConsulConfig → Option Start.Client
  -- net.SplitHostPort, the host
  pub split_host : Text → Option Text
  -- the tags of the target's metrics
  pub kv_tags : List Text

pub record NodeConfiguration : Type 0 where
  pub selectors : List Text
  pub min_count : ℤ
  pub max_requeue_count : ℤ

-- what main has built when it starts its goroutines
pub record Components (o : Outside) : Type 1 where
  pub stats_client : Client
  pub elector : ElectorParts o.LeaderClient
  pub target : Consul × TargetConfig
  pub service_informer : InformerConfig o.ClientSet
  pub namespaces : List Text
  pub cluster_id : Text
  pub node_informer : InformerConfig o.ClientSet
  pub node_config : NodeConfiguration
  pub http_server : Server

-- `stopTimeout`, in nanoseconds
unfoldable pub stop_timeout : ℕ
stop_timeout = 10000000000

unfoldable pub check_cluster_id : Settings → Startup (Unit {0})
check_cluster_id s = if not s.has_cluster_id then fatal cluster_id_unset else started tt

unfoldable pub selectors_of : Selectors → Startup (List Text)
selectors_of no_selector = fatal bad_node_selectors
selectors_of bad_selectors = fatal bad_node_selectors
selectors_of (parsed l) = started l

-- `consulIPs, err := net.LookupIP(consulHost)`
unfoldable pub looked_up : Option (List Text) → Startup (List Text)
looked_up none = fatal consul_lookup
looked_up (some ips) = started ips

-- `fmt.Sprintf("%s:%d", consulIPs[0].String(), consulPort)`
unfoldable pub consul_address : List Text → ℤ → Startup Text
unfolding host_port
consul_address [] port = crashed
consul_address (ip ∷ ips) port = started (host_port ip port)

module _ (o : Outside) (s : Settings) where
  unfoldable pub configured : Startup Client
  unfolding configure initial_client
  configured =
      if s.dogstatsd_enabled
      then (let (r, client) =
            configure o.statsd_accepts (codes "kube-service-exporter.") s.dogstatsd_host
              s.dogstatsd_port s.dogstatsd_tags in
          or_fatal r dogstatsd >> started client)
      else started initial_client

  -- the configuration of the target's client
  unfoldable pub target_consul : Text → ConsulConfig
  target_consul address =
      let cfg : ConsulConfig = record o.default_config { address = address } in
      if s.has_datacenter then record cfg { datacenter = s.consul_datacenter } else cfg

  unfoldable pub built_target : Text → Run (Consul × TargetConfig)
  unfolding new_consul_target target_consul
  built_target address =
      new_consul_target o.split_host (λ addr. o.target_client (target_consul addr)) o.kv_tags
        (record {
          address = address;
          kv_prefix = s.kv_prefix;
          services_key_tmpl = s.services_key_template;
          cluster_id = s.cluster_id;
          services_enabled = s.services_enabled;
        })

  -- main up to the list of runStoppers
  unfoldable pub start : Startup (Components o)
  unfolding check_cluster_id selectors_of configured looked_up consul_address built_target
      new_informer_config new_node_informer_config new_client_set new_consul_leader_elector
      new_server stop_timeout
  start = do
    check_cluster_id s
    selectors ← selectors_of (parse_node_selectors o.decode_selectors s.node_selector)
    client ← configured
    ic ←
        or_fatal
          (new_informer_config (new_client_set o.service_config o.new_for_config)
            s.service_resync_period)
          service_informer
    node_ic ←
        or_fatal (new_node_informer_config (new_client_set o.node_config o.new_for_config))
          node_informer
    ips ← looked_up (o.lookup_ip s.consul_host)
    address ← consul_address ips s.consul_port
    elector ←
        or_fatal
          (new_consul_leader_elector o.leader_client (record o.default_config { address = address })
            s.kv_prefix s.cluster_id s.pod_name)
          leader_election
    target ← or_fatal (built_target address) consul_target_setup
    started (record {
      stats_client = client;
      elector = elector;
      target = target;
      service_informer = ic;
      namespaces = s.namespaces;
      cluster_id = s.cluster_id;
      node_informer = node_ic;
      node_config = record {
        selectors = selectors;
        min_count = s.min_selector_nodes;
        max_requeue_count = s.max_requeue_count;
      };
      http_server = new_server s.http_ip s.http_port stop_timeout;
    })
