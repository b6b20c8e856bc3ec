-- ===== src/Main/Defaults.antt =====
-- What the settings are where the environment says nothing.
use kube_service_exporter.Base.{
  ℕ, ◌≡◌, refl, ap, ◌∙◌, Bool, true, false, Option, none, some, List, [], ◌∷◌, if◌then◌else◌, Text,
  codes, text_eq,
}
use kube_service_exporter.Go.Int.{pos}
use kube_service_exporter.Main.Settings.{
  Value, text, number, Settings, flag, Viper, Documented, defaults, set_defaults, settings_of,
  read_settings,
}

-- the default of a key behind a list of SetDefault
abbrev pub found : List (Text × Value) → Text → Option Value → Option Value
found [] j o = o
found (d ∷ rest) j o = found rest j (if text_eq d.0 j then some d.1 else o)

-- The settings where no variable is set: the defaults of the README but for one, since the selector of nodes is
-- the empty text and not one for all nodes. The cluster id counts as not set, and the datacenter as set.
pub record AllDefault (s : Settings) : Type 0 where
  pub cluster : s.has_cluster_id ≡ false
  pub datacenter : (s.has_datacenter ≡ true) × (s.consul_datacenter ≡ [])
  pub selector : s.node_selector ≡ []
  pub template : s.services_key_template ≡ []
  pub prefix : s.kv_prefix ≡ codes "kube-service-exporter"
  pub consul : (s.consul_host ≡ codes "127.0.0.1") × (s.consul_port ≡ pos 8500)
  pub dogstatsd :
      (s.dogstatsd_enabled ≡ true)
      × (s.dogstatsd_host ≡ codes "127.0.0.1")
      × (s.dogstatsd_port ≡ pos 8125)
  pub http : (s.http_ip ≡ []) × (s.http_port ≡ pos 8080)
  pub services : (s.services_enabled ≡ false) × (s.service_resync_period ≡ pos 15)
  pub nodes : (s.min_selector_nodes ≡ pos 1) × (s.max_requeue_count ≡ pos 5)

module _ (viper : Viper) (environment : Text → Option Text)
    (documented : Documented viper environment) where
  open viper use {State}
  open documented use {default_of}

  set_defaults-found :
      (ds : List (Text × Value)) (s : State) (j : Text)
      → default_of (set_defaults viper ds s) j ≡ found ds j (default_of s j)
  unfolding set_defaults
  set_defaults-found [] s j = refl
  set_defaults-found (d ∷ rest) s j =
      set_defaults-found rest (viper.set_default d.0 d.1 s) j
      ∙ ap (found rest j) (documented.default_set d.0 d.1 s j)

  abbrev pub prepared : State
  prepared = set_defaults viper defaults viper.fresh

  -- the default of main, if it sets one
  default-found : (j : Text) → default_of prepared j ≡ found defaults j none
  default-found j =
      set_defaults-found defaults viper.fresh j ∙ ap (found defaults j) (documented.default_fresh j)

  -- a key that has neither a variable nor a default
  pub unset-string :
      (j : Text)
      → environment j ≡ none
      → found defaults j none ≡ none
      → (viper.is_set j prepared ≡ false) × (viper.get_string j prepared ≡ [])
  unset-string j e f = documented.not_set j prepared e (default-found j ∙ f)

  module _ (unset : (k : Text) → environment k ≡ none) where
    text_of : (j t : Text) → found defaults j none ≡ some (text t) → viper.get_string j prepared ≡ t
    text_of j t f = documented.string_default j prepared t (unset j) (default-found j ∙ f)

    int_of :
        (j : Text) (n : ℕ)
        → found defaults j none ≡ some (number n)
        → viper.get_int j prepared ≡ pos n
    int_of j n f = documented.int_default j prepared n (unset j) (default-found j ∙ f)

    bool_of :
        (j : Text) (b : Bool)
        → found defaults j none ≡ some (flag b)
        → viper.get_bool j prepared ≡ b
    bool_of j b f = documented.bool_default j prepared b (unset j) (default-found j ∙ f)

    -- Let viper do what it documents, and let no variable with the prefix KSE_ be set. Then all settings are the
    -- defaults: those of the README, but that there is no selector of nodes.
    pub settings-AllDefault : AllDefault (read_settings viper)
    unfolding read_settings settings_of defaults text_eq
    settings-AllDefault = record {
      cluster = (unset-string (codes "CLUSTER_ID") (unset (codes "CLUSTER_ID")) refl).0;
      datacenter = (
        documented.is_set_default (codes "CONSUL_DATACENTER") prepared (text [])
            (default-found (codes "CONSUL_DATACENTER")),
        text_of (codes "CONSUL_DATACENTER") [] refl,
      );
      selector = (unset-string (codes "NODE_SELECTOR") (unset (codes "NODE_SELECTOR")) refl).1;
      template =
          (unset-string (codes "SERVICES_KEY_TEMPLATE") (unset (codes "SERVICES_KEY_TEMPLATE"))
            refl).1;
      prefix = text_of (codes "CONSUL_KV_PREFIX") (codes "kube-service-exporter") refl;
      consul = (
        text_of (codes "CONSUL_HOST") (codes "127.0.0.1") refl,
        int_of (codes "CONSUL_PORT") 8500 refl,
      );
      dogstatsd = (
        bool_of (codes "DOGSTATSD_ENABLED") true refl,
        text_of (codes "DOGSTATSD_HOST") (codes "127.0.0.1") refl,
        int_of (codes "DOGSTATSD_PORT") 8125 refl,
      );
      http = (text_of (codes "HTTP_IP") [] refl, int_of (codes "HTTP_PORT") 8080 refl);
      services = (
        bool_of (codes "SERVICES_ENABLED") false refl,
        int_of (codes "SERVICE_RESYNC_PERIOD") 15 refl,
      );
      nodes =
          (int_of (codes "MIN_SELECTOR_NODES") 1 refl, int_of (codes "MAX_REQUEUE_COUNT") 5 refl);
    }
