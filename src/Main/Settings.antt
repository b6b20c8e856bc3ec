-- ===== src/Main/Settings.antt =====
-- The settings that main reads through viper: the defaults that it sets first, and then each variable with its
-- type. viper is a parameter.
use kube_service_exporter.Base.{
  ℕ, ◌≡◌, Bool, true, false, Option, none, some, List, [], ◌∷◌, if◌then◌else◌, Text, codes, text_eq,
}
use kube_service_exporter.Go.Int.{ℤ, pos}

-- a default of main
pub data Value : Type 0 where
  text : Text → Value
  number : ℕ → Value
  flag : Bool → Value

-- viper, behind SetEnvPrefix("KSE") and AutomaticEnv: `State` has the defaults that were set
pub record Viper : Type 1 where
  pub State : Type 0
  pub fresh : State
  pub set_default : Text → Value → State → State
  pub is_set : Text → State → Bool
  pub get_string : Text → State → Text
  pub get_int : Text → State → ℤ
  pub get_bool : Text → State → Bool
  pub get_string_slice : Text → State → List Text
  pub get_string_map : Text → State → List (Text × Text)

pub record Settings : Type 0 where
  pub has_cluster_id : Bool
  pub has_datacenter : Bool
  pub namespaces : List Text
  pub cluster_id : Text
  pub kv_prefix : Text
  pub consul_host : Text
  pub consul_port : ℤ
  pub consul_datacenter : Text
  pub pod_name : Text
  pub node_selector : Text
  pub min_selector_nodes : ℤ
  pub max_requeue_count : ℤ
  pub dogstatsd_enabled : Bool
  pub dogstatsd_host : Text
  pub dogstatsd_port : ℤ
  pub dogstatsd_tags : List (Text × Text)
  pub http_ip : Text
  pub http_port : ℤ
  pub services_enabled : Bool
  pub services_key_template : Text
  pub service_resync_period : ℤ

unfoldable pub defaults : List (Text × Value)
defaults =
    (codes "CONSUL_KV_PREFIX", text (codes "kube-service-exporter"))
    ∷ (codes "CONSUL_DATACENTER", text [])
    ∷ (codes "CONSUL_HOST", text (codes "127.0.0.1"))
    ∷ (codes "CONSUL_PORT", number 8500)
    ∷ (codes "DOGSTATSD_ENABLED", flag true)
    ∷ (codes "DOGSTATSD_HOST", text (codes "127.0.0.1"))
    ∷ (codes "DOGSTATSD_PORT", number 8125)
    ∷ (codes "HTTP_IP", text [])
    ∷ (codes "HTTP_PORT", number 8080)
    ∷ (codes "SERVICES_ENABLED", flag false)
    ∷ (codes "MIN_SELECTOR_NODES", number 1)
    ∷ (codes "MAX_REQUEUE_COUNT", number 5)
    ∷ (codes "SERVICE_RESYNC_PERIOD", number 15)
    ∷ []

module _ (viper : Viper) where
  open viper use {State}

  -- one SetDefault after the other
  unfoldable pub set_defaults : List (Text × Value) → State → State
  set_defaults [] s = s
  set_defaults (d ∷ rest) s = set_defaults rest (viper.set_default d.0 d.1 s)

  unfoldable pub settings_of : State → Settings
  settings_of s = record {
    has_cluster_id = viper.is_set (codes "CLUSTER_ID") s;
    has_datacenter = viper.is_set (codes "CONSUL_DATACENTER") s;
    namespaces = viper.get_string_slice (codes "NAMESPACE_LIST") s;
    cluster_id = viper.get_string (codes "CLUSTER_ID") s;
    kv_prefix = viper.get_string (codes "CONSUL_KV_PREFIX") s;
    consul_host = viper.get_string (codes "CONSUL_HOST") s;
    consul_port = viper.get_int (codes "CONSUL_PORT") s;
    consul_datacenter = viper.get_string (codes "CONSUL_DATACENTER") s;
    pod_name = viper.get_string (codes "POD_NAME") s;
    node_selector = viper.get_string (codes "NODE_SELECTOR") s;
    min_selector_nodes = viper.get_int (codes "MIN_SELECTOR_NODES") s;
    max_requeue_count = viper.get_int (codes "MAX_REQUEUE_COUNT") s;
    dogstatsd_enabled = viper.get_bool (codes "DOGSTATSD_ENABLED") s;
    dogstatsd_host = viper.get_string (codes "DOGSTATSD_HOST") s;
    dogstatsd_port = viper.get_int (codes "DOGSTATSD_PORT") s;
    dogstatsd_tags = viper.get_string_map (codes "DOGSTATSD_TAGS") s;
    http_ip = viper.get_string (codes "HTTP_IP") s;
    http_port = viper.get_int (codes "HTTP_PORT") s;
    services_enabled = viper.get_bool (codes "SERVICES_ENABLED") s;
    services_key_template = viper.get_string (codes "SERVICES_KEY_TEMPLATE") s;
    service_resync_period = viper.get_int (codes "SERVICE_RESYNC_PERIOD") s;
  }

  unfoldable pub read_settings : Settings
  unfolding set_defaults settings_of defaults
  read_settings = settings_of (set_defaults defaults viper.fresh)

-- What viper documents, where `environment` has the variables with the prefix, and an empty variable counts as
-- missing: SetDefault sets the default of
-- one key; a variable of the environment comes before a default; a key with neither is not set, and has
-- the empty text.
pub record Documented (viper : Viper) (environment : Text → Option Text) : Type 0 where
  pub default_of : viper.State → Text → Option Value
  pub default_fresh : (j : Text) → default_of viper.fresh j ≡ none
  pub default_set :
      (k : Text) (v : Value) (s : viper.State) (j : Text)
      → default_of (viper.set_default k v s) j ≡ (if text_eq k j then some v else default_of s j)
  pub is_set_env :
      (k : Text) (s : viper.State) (t : Text) → environment k ≡ some t → viper.is_set k s ≡ true
  pub is_set_default :
      (k : Text) (s : viper.State) (v : Value) → default_of s k ≡ some v → viper.is_set k s ≡ true
  pub not_set :
      (k : Text) (s : viper.State)
      → environment k ≡ none
      → default_of s k ≡ none
      → (viper.is_set k s ≡ false) × (viper.get_string k s ≡ [])
  pub string_env :
      (k : Text) (s : viper.State) (t : Text) → environment k ≡ some t → viper.get_string k s ≡ t
  pub string_default :
      (k : Text) (s : viper.State) (t : Text)
      → environment k ≡ none
      → default_of s k ≡ some (text t)
      → viper.get_string k s ≡ t
  pub int_default :
      (k : Text) (s : viper.State) (n : ℕ)
      → environment k ≡ none
      → default_of s k ≡ some (number n)
      → viper.get_int k s ≡ pos n
  pub bool_default :
      (k : Text) (s : viper.State) (b : Bool)
      → environment k ≡ none
      → default_of s k ≡ some (flag b)
      → viper.get_bool k s ≡ b
