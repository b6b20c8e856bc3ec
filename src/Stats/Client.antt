-- ===== src/Stats/Client.antt =====
-- Configure and Client of pkg/stats/stats.go: the package's client, which is the no-op client until Configure
-- is called. statsd.New is a parameter.
use kube_service_exporter.Base.{Bool, List, ◌∷◌, ◌++◌, if◌then◌else◌, Text}
use kube_service_exporter.Go.Run.{no_statsd, Run, ok, err}
use kube_service_exporter.Go.Int.{ℤ}
use kube_service_exporter.Go.Strconv.{itoa}
use kube_service_exporter.Stats.{tags_array}

-- what stands in the package's variable: the no-op client, a client that statsd.New has made for an
-- address, with its namespace and tags, or the nil pointer that stands beside an error
pub data Client : Type 0 where
  no_op nil_client : Client
  statsd : Text → Text → List Text → Client

-- init
unfoldable pub initial_client : Client
initial_client = no_op

-- `fmt.Sprintf("%s:%d", host, port)`
unfoldable pub host_port : Text → ℤ → Text
host_port host port = host ++ (b':' ∷ itoa port)

-- Configure, with the client that it leaves; `accepts` says whether statsd.New takes the address
unfoldable pub configure :
    (Text → Bool) → Text → Text → ℤ → List (Text × Text) → Run (Unit {0}) × Client
unfolding host_port tags_array
configure accepts namespace host port tags =
    if accepts (host_port host port)
    then (ok tt, statsd (host_port host port) namespace (tags_array tags))
    else (err no_statsd, nil_client)
