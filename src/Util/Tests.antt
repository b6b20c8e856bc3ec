-- ===== src/Util/Tests.antt =====
-- Runs of the functions of pkg/util.
use kube_service_exporter.Base.{
  ℕ, ◌≡◌, refl, ◌↔◌, ◌⊎◌, true, false, Option, none, some, [], ◌∷◌, Text, codes,
}
use kube_service_exporter.Util.{is_domain_name, trim_space, pretend_ready_until, should_include}
use kube_service_exporter.Util.DomainName.{is_name, is_domain_name-eq-is_name}
use kube_service_exporter.Util.Ready.{IsReady, InGrace, should_include_iff}
use kube_service_exporter.Kube.{Node, node_ready, condition_true}

domain_runs :
    (is_domain_name (codes "http.web.default.local") ≡ true)
    × (is_domain_name (codes "a..b") ≡ false)
    × (is_domain_name (codes "1.2.3.4") ≡ false)
    × (is_domain_name (codes "-a.b") ≡ false)
    × (is_domain_name (codes "a-.b") ≡ false)
    × (is_domain_name (codes "a.b.") ≡ true)
    × (is_domain_name (codes ".") ≡ true)
unfolding is_domain_name
domain_runs = (refl, refl, refl, refl, refl, refl, refl)

trim_run : trim_space (codes "  a b ") ≡ codes "a b"
unfolding trim_space
trim_run = refl

is_domain_name-eq-is_name_example : is_domain_name (codes "a.b-c.d") ≡ is_name (codes "a.b-c.d")
is_domain_name-eq-is_name_example = is_domain_name-eq-is_name (codes "a.b-c.d")

-- instants that are written as one number
abbrev first_number : Text → Option ℕ
first_number [] = none
first_number (n ∷ s) = some n

abbrev warming_up : Node
warming_up = record {
  name = codes "worker-1";
  annotations = some ((pretend_ready_until, 90 ∷ []) ∷ []);
  unschedulable = true;
  conditions = record { type = node_ready; status = condition_true } ∷ [];
  addresses = [];
}

should_include_iff_example :
    ((should_include first_number 30 warming_up).0 ≡ true)
    ↔ (((until : ℕ) × InGrace first_number 30 warming_up until) ⊎ IsReady warming_up)
should_include_iff_example = should_include_iff first_number 30 warming_up
