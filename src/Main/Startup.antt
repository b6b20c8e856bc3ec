-- ===== src/Main/Startup.antt =====
-- How a start of the program ends: with what it has built, with log.Fatal, or with a panic.
use kube_service_exporter.Go.Run.{Error, Run, ok, err, panic}

-- the calls of log.Fatal in main, with the error that they wrap
pub data Fatal : Type 0 where
  cluster_id_unset bad_node_selectors consul_lookup : Fatal
  dogstatsd service_informer node_informer leader_election consul_target_setup : Error → Fatal

pub data Startup {ℓ} (A : Type ℓ) : Type ℓ where
  started : A → Startup A
  fatal : Fatal → Startup A
  crashed : Startup A

infixl 5 ◌>>=◌ ◌>>◌
abbrev pub ◌>>=◌ {ℓ κ} : {A : Type ℓ} {B : Type κ} → Startup A → (A → Startup B) → Startup B
started a >>= f = f a
fatal e >>= f = fatal e
crashed >>= f = crashed

abbrev pub ◌>>◌ {ℓ κ} : {A : Type ℓ} {B : Type κ} → Startup A → Startup B → Startup B
m >> n = m >>= λ _. n

-- `if err != nil { log.Fatal(...) }`
abbrev pub or_fatal {ℓ} : {A : Type ℓ} → Run A → (Error → Fatal) → Startup A
or_fatal (ok a) f = started a
or_fatal (err e) f = fatal (f e)
or_fatal panic f = crashed
