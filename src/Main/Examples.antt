-- ===== src/Main/Examples.antt =====
-- A viper with an environment, a start of the program and a run of it: the theorems of main at concrete inputs.
use kube_service_exporter.Base.{
  ◌≡◌, refl, Bool, true, false, Option, none, some, [], ◌∷◌, if◌then◌else◌, Text, codes, text_eq,
}
use kube_service_exporter.Go.Int.{ℤ, pos}
use kube_service_exporter.Leader.{new_elector, returned, locked, stopped, begin_term, step_down}
use kube_service_exporter.Main.Settings.{
  Value, text, number, flag, Viper, Documented, Settings, read_settings,
}
use kube_service_exporter.Main.Startup.{bad_node_selectors, fatal}
use kube_service_exporter.Main.Start.{Outside, start}
use kube_service_exporter.Main.Failures.{ending, checks, first_fatal, start-first_fatal}
use kube_service_exporter.Main.Selector.{start-no_selector}
use kube_service_exporter.Main.Shutdown.{
  Process, new_process, selecting, services_wait, ProcessReachable, begun, next, elector_moves,
  signal, stop_elector, elector_stopped, stop_services,
}
use kube_service_exporter.Main.Order.{Ordered, Reachable-Ordered}
use kube_service_exporter.Main.Ending.{CanStop, Reachable-CanStop}

-- the value of a key: the variable, or else the default
abbrev is_given : Option Text → Option Value → Bool
is_given (some t) d = true
is_given none (some v) = true
is_given none none = false

abbrev string_given : Option Text → Option Value → Text
string_given (some t) d = t
string_given none (some (text t)) = t
string_given none _ = []

abbrev int_given : Option Text → Option Value → ℤ
int_given none (some (number n)) = pos n
int_given _ _ = pos 0

abbrev flag_given : Option Text → Option Value → Bool
flag_given none (some (flag b)) = b
flag_given _ _ = false

abbrev viper_in : (Text → Option Text) → Viper
viper_in environment = record {
  State = Text → Option Value;
  fresh = λ k. none;
  set_default = λ k v s j. if text_eq k j then some v else s j;
  is_set = λ k s. is_given (environment k) (s k);
  get_string = λ k s. string_given (environment k) (s k);
  get_int = λ k s. int_given (environment k) (s k);
  get_bool = λ k s. flag_given (environment k) (s k);
  get_string_slice = λ k s. [];
  get_string_map = λ k s. [];
}

viper_in-Documented :
    (environment : Text → Option Text) → Documented (viper_in environment) environment
viper_in-Documented environment = record {
  default_of = λ s k. s k;
  default_fresh = λ j. refl;
  default_set = λ k v s j. refl;
  is_set_env = λ k s t e. rw e refl;
  is_set_default = λ k s v d. given (environment k) v (s k) d;
  not_set = λ k s e d. (rw (e, d) refl, rw (e, d) refl);
  string_env = λ k s t e. rw e refl;
  string_default = λ k s t e d. rw (e, d) refl;
  int_default = λ k s n e d. rw (e, d) refl;
  bool_default = λ k s b e d. rw (e, d) refl;
}
  where
    given : (o : Option Text) (v : Value) (d : Option Value) → d ≡ some v → is_given o d ≡ true
    given (some t) v d e = refl
    given none v d e = rw e refl

abbrev only_cluster : Text → Option Text
only_cluster k = if text_eq (codes "CLUSTER_ID") k then some (codes "c1") else none

-- other libraries that agree with everything, but for the client of the target
abbrev outside : Outside
outside = record {
  KubeConfig = Unit {0};
  ClientSet = Unit {0};
  LeaderClient = Unit {0};
  decode_selectors = λ t. some (t ∷ []);
  statsd_accepts = λ t. true;
  service_config = some tt;
  node_config = some tt;
  new_for_config = λ k. some tt;
  lookup_ip = λ host. some (codes "10.0.0.1" ∷ []);
  default_config = record { address = []; datacenter = [] };
  leader_client = λ cfg. some tt;
  target_client = λ cfg. none;
  split_host = λ t. some t;
  kv_tags = [];
}

start-no_selector_example :
    start outside (read_settings (viper_in only_cluster)) ≡ fatal bad_node_selectors
unfolding text_eq
start-no_selector_example =
    start-no_selector (viper_in only_cluster) only_cluster (viper_in-Documented only_cluster)
      (codes "c1") refl refl outside

-- settings with a selector of nodes
abbrev chosen : Settings
unfolding read_settings
chosen = record (read_settings (viper_in only_cluster)) { node_selector = codes "[\"role=lb\"]" }

start-first_fatal_example :
    ending (start outside chosen) ≡ some (first_fatal (checks outside chosen))
start-first_fatal_example = start-first_fatal outside chosen λ ips e. cc

-- a run up to the Stop of the service watcher
abbrev stopping_services : Process
unfolding new_process new_elector
stopping_services = record new_process {
  elector = record new_elector { phase = returned; stopping = true };
  services = record new_process.services { stopping = true };
  stopper = services_wait;
  main = selecting;
}

stopping_services-ProcessReachable : ProcessReachable stopping_services
unfolding new_process new_elector begin_term step_down
stopping_services-ProcessReachable =
    next
      (next
        (next
          (next
            (next
              (next begun (elector_moves refl (record { moves = locked refl; stopping = refl })))
              (signal refl refl))
            (stop_elector refl refl))
          (elector_moves refl (record { moves = stopped refl refl; stopping = refl })))
        (elector_stopped refl refl refl))
      (stop_services refl refl)

Reachable-Ordered_example : Ordered stopping_services
Reachable-Ordered_example = Reachable-Ordered stopping_services stopping_services-ProcessReachable

Reachable-CanStop_example : CanStop stopping_services
unfolding new_process
Reachable-CanStop_example =
    Reachable-CanStop stopping_services stopping_services-ProcessReachable refl
