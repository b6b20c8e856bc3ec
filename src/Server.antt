-- ===== src/Server.antt =====
-- pkg/server/server.go: the HTTP server with its health check. net/http is a parameter: what is modelled is the
-- address, the routes and what ping answers.
use kube_service_exporter.Base.{ℕ, Option, none, some, List, [], ◌∷◌, Text, codes, lookup}
use kube_service_exporter.Go.Int.{ℤ}
use kube_service_exporter.Stats.Client.{host_port}

-- what a route is served by
pub data Handler : Type 0 where
  ping_handler expvar_handler : Handler

pub record Server : Type 0 where
  pub addr : Text
  pub mux : List (Text × Handler)
  pub stop_timeout : ℕ

-- New
unfoldable pub new_server : Text → ℤ → ℕ → Server
unfolding host_port
new_server ip port stop_timeout = record {
  addr = host_port ip port;
  mux = (codes "/healthz", ping_handler) ∷ (codes "/debug/vars", expvar_handler) ∷ [];
  stop_timeout = stop_timeout;
}

-- ping: what it writes
unfoldable pub ping : Text
ping = codes "ok"

-- what a handler writes, where the exported variables are a parameter
unfoldable pub serve : Text → Handler → Text
unfolding ping
serve vars ping_handler = ping
serve vars expvar_handler = vars

-- the answer to a request for a path; http.ServeMux knows no other path here
unfoldable pub answer_to : Text → Server → Text → Option Text
unfolding serve
answer_to vars s path = elim (lookup path s.mux) [ none ↦ none | some h ↦ some (serve vars h) ]
