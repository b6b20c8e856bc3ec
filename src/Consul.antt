-- ===== src/Consul.antt =====
-- What the program uses of its surroundings: the Consul client (github.com/hashicorp/consul/api,
-- through pkg/consul, which is Instrumented), and the leader elector as the target sees it. Both
-- are parameters: a type of states of the world, and the calls as functions on it.
pub mod Instrumented
use kube_service_exporter.Base.{
  ◌≡◌, ◌⊎◌, Bool, true, Option, none, some, List, if◌then◌else◌, Text, lookup, text_eq, has_prefix,
}
use kube_service_exporter.Go.Int.{ℤ}

pub record Check : Type 0 where
  pub name : Text
  pub tcp : Text
  pub interval : Text

-- capi.AgentServiceRegistration, with the fields that the program sets
pub record Registration : Type 0 where
  pub service_id : Text
  pub name : Text
  pub tags : List Text
  pub port : ℤ
  pub address : Text
  pub check : Check

-- capi.AgentService, with the fields that the program reads
pub record AgentService : Type 0 where
  pub service_id : Text
  pub service : Text
  pub tags : List Text
  pub port : ℤ
  pub address : Text

-- The calls; `none` is an error. `get` returns no pair where the key is absent, and else its value. An entry of
-- `services` may be the nil pointer.
pub record Consul : Type 1 where
  pub World : Type 0
  pub get : Text → World → Option (Option Text) × World
  pub put : Text → Text → World → Option (Unit {0}) × World
  pub delete_tree : Text → World → Option (Unit {0}) × World
  pub services : World → Option (List (Text × Option AgentService)) × World
  pub register : Registration → World → Option (Unit {0}) × World
  pub deregister : Text → World → Option (Unit {0}) × World
  pub wait_for_leader : World → Option (Unit {0}) × World
  pub is_leader : World → Bool

-- the agent's answers have no nil pointer as a service
abbrev pub Present : Consul → Type 0
Present c =
    (w : c.World) (l : List (Text × Option AgentService)) (i : Text)
    → (c.services w).0 ≡ some l
    → ¬ (lookup i l ≡ some none)

-- What the target relies on. `kv` is the content of the key-value store. While one operation of the
-- target runs, nobody else writes to the store and leadership does not change. A read returns what the
-- store holds, a write sets the one key, and a recursive delete removes every key that begins with the
-- prefix. Where such a call fails, each key is as it was or as the call would have left it, since only the reply
-- may be lost. The agent's answer has a service under each of its ids.
pub record Laws (c : Consul) : Type 1 where
  pub kv : c.World → Text → Option Text
  pub get_value : (k : Text) (w : c.World) (o : Option Text) → (c.get k w).0 ≡ some o → kv w k ≡ o
  pub get_kv : (k : Text) (w : c.World) (j : Text) → kv (c.get k w).1 j ≡ kv w j
  pub get_leader : (k : Text) (w : c.World) → c.is_leader (c.get k w).1 ≡ c.is_leader w
  pub put_ok :
      (k v : Text) (w : c.World) (j : Text)
      → (c.put k v w).0 ≡ some tt
      → kv (c.put k v w).1 j ≡ (if text_eq k j then some v else kv w j)
  pub put_failed :
      (k v : Text) (w : c.World) (j : Text)
      → (c.put k v w).0 ≡ none
      → (kv (c.put k v w).1 j ≡ kv w j) ⊎ ((text_eq k j ≡ true) × (kv (c.put k v w).1 j ≡ some v))
  pub put_leader : (k v : Text) (w : c.World) → c.is_leader (c.put k v w).1 ≡ c.is_leader w
  pub delete_ok :
      (p : Text) (w : c.World) (j : Text)
      → (c.delete_tree p w).0 ≡ some tt
      → kv (c.delete_tree p w).1 j ≡ (if has_prefix p j then none else kv w j)
  pub delete_failed :
      (p : Text) (w : c.World) (j : Text)
      → (c.delete_tree p w).0 ≡ none
      → (kv (c.delete_tree p w).1 j ≡ kv w j)
        ⊎ ((has_prefix p j ≡ true) × (kv (c.delete_tree p w).1 j ≡ none))
  pub delete_leader : (p : Text) (w : c.World) → c.is_leader (c.delete_tree p w).1 ≡ c.is_leader w
  pub services_present : Present c
  pub services_kv : (w : c.World) (j : Text) → kv (c.services w).1 j ≡ kv w j
  pub services_leader : (w : c.World) → c.is_leader (c.services w).1 ≡ c.is_leader w
  pub register_kv : (r : Registration) (w : c.World) (j : Text) → kv (c.register r w).1 j ≡ kv w j
  pub register_leader :
      (r : Registration) (w : c.World) → c.is_leader (c.register r w).1 ≡ c.is_leader w
  pub deregister_kv : (k : Text) (w : c.World) (j : Text) → kv (c.deregister k w).1 j ≡ kv w j
  pub deregister_leader :
      (k : Text) (w : c.World) → c.is_leader (c.deregister k w).1 ≡ c.is_leader w
  pub wait_kv : (w : c.World) (j : Text) → kv (c.wait_for_leader w).1 j ≡ kv w j
  pub wait_leader : (w : c.World) → c.is_leader (c.wait_for_leader w).1 ≡ c.is_leader w
