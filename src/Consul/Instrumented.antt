-- ===== src/Consul/Instrumented.antt =====
-- pkg/consul/instrumented_consul.go: each call is passed on to the Consul client, is timed, and counts as a
-- success or a failure. The state is that of the world with what has been sent to the statsd client.
use kube_service_exporter.Base.{ℕ, Option, List, [], ◌∷◌, ◌++◌, Text, codes}
use kube_service_exporter.Stats.{Sample, with_timing, incr_success_or_fail}
use kube_service_exporter.Consul.{Consul, Registration, AgentService}

module _ (c : Consul) (now : c.World → ℕ) where
  -- `stats.IncrSuccessOrFail(err, prefix, tags)` behind a call
  counted :
      {A : Type 0}
      → Text
      → List Text
      → Option A × (c.World × List Sample)
      → Option A × (c.World × List Sample)
  unfolding incr_success_or_fail
  counted prefix tags (r, (w, sent)) = (r, (w, sent ++ incr_success_or_fail r prefix tags ∷ []))

  -- InstrumentedKV
  unfoldable pub timed_get :
      Text → List Text → c.World × List Sample → Option (Option Text) × (c.World × List Sample)
  unfolding counted with_timing
  timed_get key tags s =
      let all_tags = codes "method:get" ∷ tags in
      counted (codes "consul.kv") all_tags
        (with_timing now (codes "consul.kv.time") all_tags (c.get key) s)

  unfoldable pub timed_put :
      Text → Text → List Text → c.World × List Sample → Option (Unit {0}) × (c.World × List Sample)
  unfolding counted with_timing
  timed_put key value tags s =
      let all_tags = codes "method:put" ∷ tags in
      counted (codes "consul.kv") all_tags
        (with_timing now (codes "consul.kv.time") all_tags (c.put key value) s)

  unfoldable pub timed_delete_tree :
      Text → List Text → c.World × List Sample → Option (Unit {0}) × (c.World × List Sample)
  unfolding counted with_timing
  timed_delete_tree prefix tags s =
      let all_tags = codes "method:delete" ∷ tags in
      counted (codes "consul.kv") all_tags
        (with_timing now (codes "consul.kv.time") all_tags (c.delete_tree prefix) s)

  -- InstrumentedAgent
  unfoldable pub timed_register :
      Registration → c.World × List Sample → Option (Unit {0}) × (c.World × List Sample)
  unfolding counted with_timing
  timed_register r s =
      let tags = codes "method:put" ∷ (codes "service:" ++ r.service_id) ∷ [] in
      counted (codes "consul.service") tags
        (with_timing now (codes "consul.service.time") tags (c.register r) s)

  unfoldable pub timed_deregister :
      Text → c.World × List Sample → Option (Unit {0}) × (c.World × List Sample)
  unfolding counted with_timing
  timed_deregister service_id s =
      let tags = codes "method:delete" ∷ (codes "service:" ++ service_id) ∷ [] in
      counted (codes "consul.service") tags
        (with_timing now (codes "consul.service.time") tags (c.deregister service_id) s)

  unfoldable pub timed_services :
      c.World × List Sample → Option (List (Text × Option AgentService)) × (c.World × List Sample)
  unfolding counted with_timing
  timed_services s =
      let tags = codes "method:get" ∷ [] in
      counted (codes "consul.service") tags
        (with_timing now (codes "consul.service.time") tags c.services s)

  -- the client that the target has; `tags` are those that it passes with its calls on the key-value store
  abbrev pub instrumented : List Text → Consul
  instrumented tags = record {
    World = c.World × List Sample;
    get = λ key. timed_get key tags;
    put = λ key value. timed_put key value tags;
    delete_tree = λ prefix. timed_delete_tree prefix tags;
    services = timed_services;
    register = timed_register;
    deregister = timed_deregister;
    wait_for_leader = λ (w, sent). let (r, w') = c.wait_for_leader w in (r, (w', sent));
    is_leader = λ (w, sent). c.is_leader w;
  }
