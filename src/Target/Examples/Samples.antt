-- ===== src/Target/Examples/Samples.antt =====
-- The target on the instrumented client, and the documents that it reads again.
use kube_service_exporter.Base.{ℕ, ◌≡◌, refl, true, none, some, List, [], ◌∷◌, codes}
use kube_service_exporter.Stats.{Sample}
use kube_service_exporter.Go.Run.{ok, panic}
use kube_service_exporter.Go.Strconv.{format}
use kube_service_exporter.Target.{create, update, delete, write_nodes}
use kube_service_exporter.Target.Document.{outdated}
use kube_service_exporter.Target.Document.Reread.{outdated-payload}
use kube_service_exporter.Target.Payload.{payload}
use kube_service_exporter.Target.Calm.{consul_target, consul_target-safe}
use kube_service_exporter.Target.Metered.{metered, seen, instrumented-seen}
use kube_service_exporter.Target.Examples.{codec, config, web_http, site_http}
use kube_service_exporter.Target.Examples.Wire.{decode-encode}
use kube_service_exporter.Target.Examples.World.{Agent, world, laws}

abbrev clock : Agent → ℕ
clock w = 0

-- a leader with an empty store, that has sent nothing yet
abbrev quiet : Agent × List Sample
quiet = (record { leads = true; kv = λ key. none }, [])

instrumented-seen_example :
    (seen (
        create
          (metered world clock (codes "kv:metadata" ∷ []) codec config)
          codec
          config
          web_http
          quiet)
      ≡ create world codec config web_http quiet.0)
    × (seen (
          update
            (metered world clock (codes "kv:metadata" ∷ []) codec config)
            codec
            config
            (some site_http)
            web_http
            quiet)
        ≡ update world codec config (some site_http) web_http quiet.0)
    × (seen (
          delete
            (metered world clock (codes "kv:metadata" ∷ []) codec config)
            codec
            config
            web_http
            quiet)
        ≡ delete world codec config web_http quiet.0)
    × (seen (
          write_nodes
            (metered world clock (codes "kv:metadata" ∷ []) codec config)
            codec
            config
            []
            quiet)
        ≡ write_nodes world codec config [] quiet.0)
instrumented-seen_example =
    instrumented-seen world clock (codes "kv:metadata" ∷ []) codec config quiet (some site_http)
      web_http []

outdated-payload_example :
    outdated codec site_http (some (codec.encode (payload (format 16 20) web_http))) ≡ ok true
outdated-payload_example = outdated-payload codec web_http site_http 20 21 decode-encode refl refl

consul_target-safe_example :
    ¬ (((consul_target world codec config).create web_http quiet.0).0 ≡ panic)
    × ¬ (((consul_target world codec config).update (some site_http) web_http quiet.0).0 ≡ panic)
    × ¬ (((consul_target world codec config).delete web_http quiet.0).0 ≡ panic)
    × ¬ (((consul_target world codec config).write_nodes [] quiet.0).0 ≡ panic)
consul_target-safe_example =
    consul_target-safe world codec config laws.services_present quiet.0 (some site_http) web_http []
