-- ===== src/Main/Selector.antt =====
-- What a start makes of settings that name no selector of nodes.
use kube_service_exporter.Base.{◌≡◌, refl, Option, none, some, Text, codes, text_eq}
use kube_service_exporter.Util.NodeSelectors.{parse_node_selectors-empty}
use kube_service_exporter.Main.Settings.{Viper, Documented, defaults, settings_of, read_settings}
use kube_service_exporter.Main.Defaults.{prepared, unset-string}
use kube_service_exporter.Main.Startup.{bad_node_selectors, fatal}
use kube_service_exporter.Main.Start.{Outside, check_cluster_id, selectors_of, start}

-- Let viper do what it documents, let KSE_CLUSTER_ID be set, and KSE_NODE_SELECTOR not. Then the program
-- ends with the log.Fatal about the selectors of nodes, whatever else is set and whatever other
-- libraries answer: there is no default that selects all nodes.
pub start-no_selector :
    (viper : Viper) (environment : Text → Option Text)
    → Documented viper environment
    → (cluster : Text) → environment (codes "CLUSTER_ID") ≡ some cluster
    → environment (codes "NODE_SELECTOR") ≡ none
    → (o : Outside) → start o (read_settings viper) ≡ fatal bad_node_selectors
unfolding start read_settings settings_of check_cluster_id selectors_of defaults text_eq
start-no_selector viper environment documented cluster known none_given o =
    rw
      (
        documented.is_set_env (codes "CLUSTER_ID") (prepared viper environment documented) cluster
            known,
        (unset-string viper environment documented (codes "NODE_SELECTOR") none_given refl).1,
        parse_node_selectors-empty o.decode_selectors,
      )
      refl
