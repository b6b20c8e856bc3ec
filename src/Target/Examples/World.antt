-- ===== src/Target/Examples/World.antt =====
-- A Consul whose calls all succeed, with a function for its store.
use kube_service_exporter.Base.{
  ◌≡◌, refl, sym, Bool, Option, none, some, List, [], if◌then◌else◌, Text, lookup, text_eq,
  has_prefix,
}
use kube_service_exporter.Consul.{AgentService, Consul, Laws}

pub record Agent : Type 0 where
  pub leads : Bool
  pub kv : Text → Option Text

abbrev pub world : Consul
world = record {
  World = Agent;
  get = λ key w. (some (w.kv key), w);
  put =
      λ key value w. (some tt, record w { kv = λ j. if text_eq key j then some value else w.kv j });
  delete_tree =
      λ prefix w. (some tt, record w { kv = λ j. if has_prefix prefix j then none else w.kv j });
  services = λ w. (some [], w);
  register = λ r w. (some tt, w);
  deregister = λ key w. (some tt, w);
  wait_for_leader = λ w. (some tt, w);
  is_leader = λ w. w.leads;
}

pub some_inj : {a b : Option Text} → some a ≡ some b → a ≡ b
some_inj e = cc

pub some-none : {A : Type 0} {o : Option (Unit {0})} → o ≡ some tt → o ≡ none → A
some-none e f = cc

pub some_list : {a b : List (Text × Option AgentService)} → some a ≡ some b → a ≡ b
some_list e = cc

none-some : {A : Type 0} {a : A} → none ≡ some a → ⊥
none-some e = cc

pub no_services :
    (i : Text) {l : List (Text × Option AgentService)} → [] ≡ l → ¬ (lookup i l ≡ some none)
unfolding lookup
no_services i h e = let e' : lookup i [] ≡ some none = rw (sym h) at e in absurd (none-some e')

abbrev pub laws : Laws world
laws = record {
  kv = λ w. w.kv;
  get_value = λ k w o h. some_inj h;
  get_kv = λ k w j. refl;
  get_leader = λ k w. refl;
  put_ok = λ k v w j h. refl;
  put_failed = λ k v w j h. some-none refl h;
  put_leader = λ k v w. refl;
  delete_ok = λ p w j h. refl;
  delete_failed = λ p w j h. some-none refl h;
  delete_leader = λ p w. refl;
  services_present = λ w l i h. no_services i (some_list h);
  services_kv = λ w j. refl;
  services_leader = λ w. refl;
  register_kv = λ r w j. refl;
  register_leader = λ r w. refl;
  deregister_kv = λ k w j. refl;
  deregister_leader = λ k w. refl;
  wait_kv = λ w j. refl;
  wait_leader = λ w. refl;
}
