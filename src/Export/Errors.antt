-- ===== src/Export/Errors.antt =====
-- Which Services NewExportedService refuses, and with which error.
use kube_service_exporter.Base.{
  ℕ, ◌<◌, ◌≡◌, refl, inl, inr, Bool, true, false, not, Option, none, some, List, [], ◌∷◌,
  if◌then◌else◌, Bool-cases, length, get_elem?-lt, Text, is_empty,
}
use kube_service_exporter.Go.Run.{
  Error, Run, ok, err, panic, ◌>>=◌, or_else, no_cluster_id, bad_listen_port, bad_health_check_port,
  bad_per_cluster, bad_custom_attrs,
}
use kube_service_exporter.Go.Int.{ℤ}
use kube_service_exporter.Go.Strconv.{parse_int, parse_bool}
use kube_service_exporter.Go.Json.{Json, null, bool, num, str, arr, obj, Fields}
use kube_service_exporter.Kube.{Service, ServicePort, annotation}
use kube_service_exporter.Export.{
  ExportedService, parse_port, parse_flag, attrs_of, parse_attrs, base_service, is_some, annotate,
  new_exported_service,
}
use kube_service_exporter.Export.Annotations.{
  listen_port, health_check_port, service_per_cluster, custom_attrs,
}

-- the error that a call returns
abbrev pub error_of {ℓ} : {A : Type ℓ} → Run A → Option Error
error_of (ok a) = none
error_of (err e) = some e
error_of panic = none

-- the first check of a list that fails
pub first_failed : List (Error × Bool) → Option Error
first_failed [] = none
first_failed ((e, passed) ∷ checks) =
    let rest = first_failed checks in if passed then rest else some e

-- an annotation that may be left out, and must parse otherwise
abbrev pub accepts {ℓ} : {A : Type ℓ} → (Text → Option A) → Option Text → Bool
accepts parse none = true
accepts parse (some val) = is_some (parse val)

-- custom-attrs must be a JSON object or null
abbrev pub is_attrs : Option Json → Bool
is_attrs (some (obj fs)) = true
is_attrs (some null) = true
is_attrs _ = false

abbrev pub accepts_attrs : (Text → Option Json) → Option Text → Bool
accepts_attrs unmarshal none = true
accepts_attrs unmarshal (some val) = is_attrs (unmarshal val)

abbrev pub checks : (Text → Option Json) → Service → Text → List (Error × Bool)
checks unmarshal s cluster_id =
    (no_cluster_id, not (is_empty cluster_id))
    ∷ (bad_listen_port, accepts parse_int (annotation s.annotations listen_port))
    ∷ (bad_health_check_port, accepts parse_int (annotation s.annotations health_check_port))
    ∷ (bad_per_cluster, accepts parse_bool (annotation s.annotations service_per_cluster))
    ∷ (bad_custom_attrs, accepts_attrs unmarshal (annotation s.annotations custom_attrs))
    ∷ []

module _ {A : Type 0} {B : Type 0} where
  or_else-error :
      (o : Option A) (e : Error) (f : A → Run B) (rest : Option Error)
      → ((a : A) → error_of (f a) ≡ rest)
      → error_of (or_else o (err e) >>= f) ≡ (if is_some o then rest else some e)
  or_else-error none e f rest h = refl
  or_else-error (some a) e f rest h = h a

parse_port-error :
    (e : Error) (o : Option Text) (z : ℤ) (f : ℤ → Run ExportedService) (rest : Option Error)
    → ((a : ℤ) → error_of (f a) ≡ rest)
    → error_of (parse_port e o z >>= f) ≡ (if accepts parse_int o then rest else some e)
unfolding parse_port
parse_port-error e none z f rest h = h z
parse_port-error e (some val) z f rest h = or_else-error (parse_int val) e f rest h

parse_flag-error :
    (o : Option Text) (b : Bool) (f : Bool → Run ExportedService) (rest : Option Error)
    → ((a : Bool) → error_of (f a) ≡ rest)
    → error_of (parse_flag o b >>= f)
      ≡ (if accepts parse_bool o then rest else some bad_per_cluster)
unfolding parse_flag
parse_flag-error none b f rest h = h b
parse_flag-error (some val) b f rest h = or_else-error (parse_bool val) bad_per_cluster f rest h

module _ (unmarshal : Text → Option Json) where
  parse_attrs-error :
      (o : Option Text) (f : Option Fields → Run ExportedService) (rest : Option Error)
      → ((a : Option Fields) → error_of (f a) ≡ rest)
      → error_of (parse_attrs unmarshal o >>= f)
        ≡ (if accepts_attrs unmarshal o then rest else some bad_custom_attrs)
  unfolding parse_attrs
  parse_attrs-error none f rest h = h _
  parse_attrs-error (some val) f rest h = go (unmarshal val)
    where
      go :
          (j : Option Json)
          → error_of (attrs_of j >>= f) ≡ (if is_attrs j then rest else some bad_custom_attrs)
      go none = unfold attrs_of in refl
      go (some null) = unfold attrs_of in h none
      go (some (bool b)) = unfold attrs_of in refl
      go (some (num n)) = unfold attrs_of in refl
      go (some (str t)) = unfold attrs_of in refl
      go (some (arr l)) = unfold attrs_of in refl
      go (some (obj fs)) = unfold attrs_of in h (some fs)

  annotate-error :
      (s : Service) (cluster_id : Text) (es : ExportedService)
      → is_empty cluster_id ≡ false
      → error_of (annotate unmarshal s.annotations es)
        ≡ first_failed (checks unmarshal s cluster_id)
  unfolding annotate first_failed
  annotate-error s cluster_id es c = rw c (
      parse_port-error bad_listen_port (annotation s.annotations listen_port) _ _ _ λ listen.
        parse_port-error bad_health_check_port (annotation s.annotations health_check_port) _ _ _
          λ health.
            parse_flag-error (annotation s.annotations service_per_cluster) _ _ _
              λ flag. parse_attrs-error (annotation s.annotations custom_attrs) _ _ λ attrs. refl)

  -- For an index within the Service's ports, NewExportedService fails exactly if one of its checks
  -- does, and with the error of the first: the cluster id is not empty, the listen port and the health
  -- check port are int32 numbers, service-per-cluster is a Boolean, and custom-attrs a JSON object or
  -- null, where the Service has those annotations.
  pub new_exported_service-error :
      (s : Service) (cluster_id : Text) (i : ℕ)
      → i < length s.ports
      → error_of (new_exported_service unmarshal s cluster_id i)
        ≡ first_failed (checks unmarshal s cluster_id)
  unfolding new_exported_service
  new_exported_service-error s cluster_id i h = elim (Bool-cases (is_empty cluster_id)) [
    | inl empty ↦ rw empty (unfold first_failed in refl)
    | inr c ↦
        let (p, e) = get_elem?-lt s.ports i h in rw (c, e) (rw c at (go s.annotations refl c p))
  ]
    where
      go :
          (m : Option (List (Text × Text)))
          → s.annotations ≡ m
          → is_empty cluster_id ≡ false
          → (p : ServicePort)
          → error_of (elim s.annotations [
            | none ↦ ok (base_service s cluster_id p)
            | some m' ↦ annotate unmarshal (some m') (base_service s cluster_id p)
          ])
            ≡ first_failed (checks unmarshal s cluster_id)
      go none e c p = unfold first_failed annotation in rw (e, c) refl
      go (some m) e c p =
          rw e (rw e at (annotate-error s cluster_id (base_service s cluster_id p) c))
