-- ===== src/Main/Failures.antt =====
-- Which of its checks ends a start of the program.
use kube_service_exporter.Base.{
  ◌≡◌, refl, ◌⊎◌, inl, inr, Bool, true, false, not, ◌||◌, Option, none, some, List, [], ◌∷◌,
  if◌then◌else◌, Bool-cases, Text,
}
use kube_service_exporter.Go.Int.{ℤ, pos}
use kube_service_exporter.Go.Run.{no_statsd, no_kube_client, bad_address, no_client, Error}
use kube_service_exporter.Util.{Selectors, no_selector, bad_selectors, parsed, parse_node_selectors}
use kube_service_exporter.Stats.Client.{Client, configure, host_port}
use kube_service_exporter.Consul.{Consul}
use kube_service_exporter.Target.{TargetConfig}
use kube_service_exporter.Target.Start.{new_consul_target}
use kube_service_exporter.ServiceWatcher.Informer.{
  InformerConfig, new_client_set, new_informer_config, new_node_informer_config,
}
use kube_service_exporter.Leader.Start.{ConsulConfig, ElectorParts, new_consul_leader_elector}
use kube_service_exporter.Main.Settings.{Settings}
use kube_service_exporter.Main.Startup.{
  Fatal, cluster_id_unset, bad_node_selectors, dogstatsd, service_informer, node_informer,
  consul_lookup, leader_election, consul_target_setup, Startup, started, fatal, crashed, ◌>>=◌,
  or_fatal,
}
use kube_service_exporter.Main.Start.{
  Outside, check_cluster_id, selectors_of, looked_up, consul_address, configured, target_consul,
  built_target, start,
}

-- how a start ends, unless it panics: at a call of log.Fatal, or not
abbrev pub ending {ℓ} : {A : Type ℓ} → Startup A → Option (Option Fatal)
ending (started a) = some none
ending (fatal f) = some (some f)
ending crashed = none

-- the first check of a list that fails
abbrev pub first_fatal : List (Fatal × Bool) → Option Fatal
first_fatal [] = none
first_fatal ((f, passed) ∷ checks) =
    let rest = first_fatal checks in if passed then rest else some f

abbrev unless_failed : Fatal → Bool → Option Fatal → Option Fatal
unless_failed f passed rest = if passed then rest else some f

abbrev pub answers {ℓ} : {A : Type ℓ} → Option A → Bool
answers none = false
answers (some a) = true

abbrev pub is_parsed : Selectors → Bool
is_parsed no_selector = false
is_parsed bad_selectors = false
is_parsed (parsed l) = true

-- a client of Kubernetes, when both the configuration and the client can be had
abbrev pub kube_client : {K C : Type 0} → Option K → (K → Option C) → Bool
kube_client none f = false
kube_client (some config) f = answers (f config)

-- the address of the agent, at the first of its IPs
abbrev pub agent_address : Option (List Text) → ℤ → Text
agent_address (some (ip ∷ ips)) port = host_port ip port
agent_address _ port = []

-- a value, or none
Option-cases {ℓ} : {A : Type ℓ} (o : Option A) → (o ≡ none) ⊎ ((a : A) × (o ≡ some a))
Option-cases none = inl refl
Option-cases (some a) = inr (a, refl)

module _ {ℓ} {B : Type ℓ} where
  step-cluster_id :
      (s : Settings) (k : Unit {0} → Startup B) (rest : Option Fatal)
      → ending (k tt) ≡ some rest
      → ending (check_cluster_id s >>= k)
        ≡ some (unless_failed cluster_id_unset (s.has_cluster_id) rest)
  unfolding check_cluster_id
  step-cluster_id s k rest h = elim (Bool-cases s.has_cluster_id) [
    | inl e ↦ rw e h
    | inr e ↦ rw e refl
  ]

  step-selectors :
      (l : Selectors) (k : List Text → Startup B) (rest : Option Fatal)
      → ((a : List Text) → ending (k a) ≡ some rest)
      → ending (selectors_of l >>= k) ≡ some (unless_failed bad_node_selectors (is_parsed l) rest)
  unfolding selectors_of
  step-selectors no_selector k rest h = refl
  step-selectors bad_selectors k rest h = refl
  step-selectors (parsed l) k rest h = h l

  step-configured :
      (o : Outside) (s : Settings) (k : Client → Startup B) (rest : Option Fatal)
      → ((a : Client) → ending (k a) ≡ some rest)
      → ending (configured o s >>= k)
        ≡ some (
            unless_failed
              (dogstatsd no_statsd)
              (not s.dogstatsd_enabled
                || o.statsd_accepts (host_port s.dogstatsd_host s.dogstatsd_port))
              rest)
  unfolding configured configure
  step-configured o s k rest h = elim (Bool-cases s.dogstatsd_enabled) [
    | inr off ↦ rw off (h _)
    | inl on ↦ elim (Bool-cases (o.statsd_accepts (host_port s.dogstatsd_host s.dogstatsd_port))) [
      | inl taken ↦ rw (on, taken) (h _)
      | inr refused ↦ rw (on, refused) refl
    ]
  ]

  step-lookup :
      (l : Option (List Text)) (port : ℤ) (k : Text → Startup B) (rest : Option Fatal)
      → ((ips : List Text) → l ≡ some ips → ¬ (ips ≡ []))
      → ending (k (agent_address l port)) ≡ some rest
      → ending (looked_up l >>= λ ips. consul_address ips port >>= k)
        ≡ some (unless_failed consul_lookup (answers l) rest)
  unfolding looked_up consul_address
  step-lookup none port k rest full h = refl
  step-lookup (some []) port k rest full h = absurd (full [] refl refl)
  step-lookup (some (ip ∷ ips)) port k rest full h = h

  module _ {K C : Type 0} (f : Error → Fatal) (config : Option K) (client : K → Option C)
      (k : InformerConfig C → Startup B) (rest : Option Fatal)
      (h : (a : InformerConfig C) → ending (k a) ≡ some rest) where
    step-informer :
        (period : ℤ)
        → ending (or_fatal (new_informer_config (new_client_set config client) period) f >>= k)
          ≡ some (unless_failed (f no_kube_client) (kube_client config client) rest)
    step-informer period = go config
      where
        go :
            (o : Option K)
            → ending (or_fatal (new_informer_config (new_client_set o client) period) f >>= k)
              ≡ some (unless_failed (f no_kube_client) (kube_client o client) rest)
        go none = unfold new_informer_config new_client_set in refl
        go (some c) = with_client (client c) refl
          where
            with_client :
                (x : Option C)
                → client c ≡ x
                → ending
                    (or_fatal (new_informer_config (new_client_set (some c) client) period) f >>= k)
                  ≡ some (unless_failed (f no_kube_client) (kube_client (some c) client) rest)
            with_client none e = unfold new_informer_config new_client_set in rw e refl
            with_client (some a) e = unfold new_informer_config new_client_set in rw e (h _)

    step-node_informer :
        ending (or_fatal (new_node_informer_config (new_client_set config client)) f >>= k)
        ≡ some (unless_failed (f no_kube_client) (kube_client config client) rest)
    unfolding new_node_informer_config new_informer_config
    step-node_informer = step-informer (pos 15)

  step-elector :
      {C : Type 0} (new_client : ConsulConfig → Option C) (cfg : ConsulConfig)
      (prefix cluster_id client_id : Text) (k : ElectorParts C → Startup B) (rest : Option Fatal)
      → ((a : ElectorParts C) → ending (k a) ≡ some rest)
      → ending (
          or_fatal
            (new_consul_leader_elector new_client cfg prefix cluster_id client_id)
            leader_election
          >>= k)
        ≡ some (unless_failed (leader_election no_client) (answers (new_client cfg)) rest)
  unfolding new_consul_leader_elector
  step-elector {C} new_client cfg prefix cluster_id client_id k rest h = go (new_client cfg) refl
    where
      go :
          (x : Option C)
          → new_client cfg ≡ x
          → ending (
              or_fatal
                (new_consul_leader_elector new_client cfg prefix cluster_id client_id)
                leader_election
              >>= k)
            ≡ some (unless_failed (leader_election no_client) (answers (new_client cfg)) rest)
      go none e = unfold new_consul_leader_elector in rw e refl
      go (some a) e = unfold new_consul_leader_elector in rw e (h _)

  step-target :
      (o : Outside) (s : Settings) (address : Text) (k : Consul × TargetConfig → Startup B)
      (rest : Option Fatal)
      → ((a : Consul × TargetConfig) → ending (k a) ≡ some rest)
      → ending (or_fatal (built_target o s address) consul_target_setup >>= k)
        ≡ some (
            unless_failed (consul_target_setup bad_address) (answers (o.split_host address)) (
              unless_failed
                (consul_target_setup no_client)
                (answers (o.target_client (target_consul o s address)))
                rest))
  unfolding built_target
  step-target o s address k rest h = elim (Option-cases (o.split_host address)) [
    | inl e ↦ rw (new_consul_target, e) refl
    | inr (host, e) ↦ elim (Option-cases (o.target_client (target_consul o s address))) [
      | inl f ↦ rw (new_consul_target, e, f) refl
      | inr (client, f) ↦ rw (new_consul_target, e, f) (h _)
    ]
  ]

module _ (o : Outside) (s : Settings) where
  abbrev pub agent : Text
  agent = agent_address (o.lookup_ip s.consul_host) s.consul_port

  -- the checks of a start, in order
  abbrev pub checks : List (Fatal × Bool)
  checks =
      (cluster_id_unset, s.has_cluster_id)
      ∷ (bad_node_selectors, is_parsed (parse_node_selectors o.decode_selectors s.node_selector))
      ∷ (
        dogstatsd no_statsd,
        not s.dogstatsd_enabled || o.statsd_accepts (host_port s.dogstatsd_host s.dogstatsd_port),
      )
      ∷ (service_informer no_kube_client, kube_client o.service_config o.new_for_config)
      ∷ (node_informer no_kube_client, kube_client o.node_config o.new_for_config)
      ∷ (consul_lookup, answers (o.lookup_ip s.consul_host))
      ∷ (
        leader_election no_client,
        answers (o.leader_client (record o.default_config { address = agent })),
      )
      ∷ (consul_target_setup bad_address, answers (o.split_host agent))
      ∷ (consul_target_setup no_client, answers (o.target_client (target_consul o s agent)))
      ∷ []

  -- Let a lookup of a host that succeeds return an address. Then a start does not panic. It ends with the
  -- log.Fatal of the first check that fails: the cluster id, the selectors of nodes, the statsd client
  -- if it is enabled, the Kubernetes clients of the two informers, the lookup of the Consul host, the
  -- elector's client, the host of the agent's address, and the target's client. If none fails, the
  -- program starts its goroutines.
  pub start-first_fatal :
      ((ips : List Text) → o.lookup_ip s.consul_host ≡ some ips → ¬ (ips ≡ []))
      → ending (start o s) ≡ some (first_fatal checks)
  unfolding start
  start-first_fatal full = step-cluster_id s _ _ (
      step-selectors (parse_node_selectors o.decode_selectors s.node_selector) _ _ λ selectors.
        step-configured o s _ _ λ client.
          step-informer service_informer o.service_config o.new_for_config _ _
            (λ ic. step-node_informer node_informer o.node_config o.new_for_config _ _ (λ node_ic.
              step-lookup (o.lookup_ip s.consul_host) s.consul_port _ _ full (
                step-elector o.leader_client (record o.default_config { address = agent })
                  s.kv_prefix s.cluster_id s.pod_name _ _
                  λ elector. step-target o s agent _ _ λ target. refl)))
            s.service_resync_period)
