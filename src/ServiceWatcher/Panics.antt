-- ===== src/ServiceWatcher/Panics.antt =====
-- Which items of the queue make processNextItem panic.
use kube_service_exporter.Base.{
  ◌≡◌, refl, sym, ap, ◌∙◌, inl, inr, Bool, true, false, Option, none, some, List, Bool-cases, Text,
  lookup,
}
use kube_service_exporter.Go.Run.{Error, Run, ok, err, panic}
use kube_service_exporter.Go.Json.{Json}
use kube_service_exporter.Kube.{Service}
use kube_service_exporter.Export.{
  ExportedService, is_exportable_service, Indexed, lookup_failed, absent, not_service, found,
}
use kube_service_exporter.ServiceWatcher.{
  Operation, add_op, update_op, delete_op, Object, service, other, KeyOp, Queue, olds_of,
  exported_of, add_service, update_service, delete_service,
}
use kube_service_exporter.ServiceWatcher.Calls.{Call, recorder, outcome}
use kube_service_exporter.ServiceWatcher.Handlers.{
  added, replaced, listed, exported_of-safe, add_service-calls, delete_service-calls,
  update_service-calls, update_service-not_exportable,
}
use kube_service_exporter.ServiceWatcher.Process.{
  State, concluded, process_add, process_update, process_delete, process_indexed, process_item,
  process_got, process_next_item,
}

abbrev pub is_panic {ℓ} : {A : Type ℓ} → Run A → Bool
is_panic (ok a) = false
is_panic (err e) = false
is_panic panic = true

-- an update of a Service that the index has, with no old Service remembered
abbrev pub lacks_old : Option Service → Indexed → Bool
lacks_old none (found svc) = true
lacks_old _ _ = false

abbrev pub is_other : Object → Bool
is_other (service svc) = false
is_other other = true

abbrev pub item_panics : (Text → Indexed) → List (Text × Service) → KeyOp → Operation → Bool
item_panics index olds ko add_op = false
item_panics index olds ko update_op = lacks_old (lookup ko.key olds) (index ko.key)
item_panics index olds ko delete_op = is_other ko.obj

abbrev pub next_panics : (Text → Indexed) → List (Text × Service) → Option KeyOp → Bool
next_panics index olds none = false
next_panics index olds (some ko) = item_panics index olds ko ko.operation

is_panic-outcome : (o : Option Error) → is_panic (outcome o) ≡ false
is_panic-outcome none = refl
is_panic-outcome (some e) = refl

module _ (refuses : Call → Option Error) (Q : Queue) (unmarshal : Text → Option Json)
    (cluster_id : Text) (index : Text → Indexed) where
  is_panic-concluded :
      (ko : KeyOp) (r : Run (Unit {0})) (s : State (recorder refuses) Q)
      → is_panic (concluded (recorder refuses) Q ko r s).0 ≡ is_panic r
  unfolding concluded
  is_panic-concluded ko (ok u) s = refl
  is_panic-concluded ko (err e) s = refl
  is_panic-concluded ko panic s = refl

  is_panic-added :
      (r : Run (List ExportedService)) (log : List Call)
      → ¬ (r ≡ panic)
      → is_panic (added r log).0 ≡ false
  is_panic-added (ok l) log safe = refl
  is_panic-added (err e) log safe = refl
  is_panic-added panic log safe = absurd (safe refl)

  is_panic-replaced :
      (olds : List ExportedService) (r : Run (List ExportedService)) (log : List Call)
      → ¬ (r ≡ panic)
      → is_panic (replaced refuses olds r log).0 ≡ false
  is_panic-replaced olds (ok l) log safe = is_panic-outcome _
  is_panic-replaced olds (err e) log safe = refl
  is_panic-replaced olds panic log safe = absurd (safe refl)

  add_service-safe :
      (s : Service) (log : List Call)
      → is_panic (add_service (recorder refuses) unmarshal cluster_id index s log).0 ≡ false
  add_service-safe s log = rw (add_service-calls refuses unmarshal cluster_id index s log) (
      is_panic-added (exported_of unmarshal cluster_id index s) log
        (exported_of-safe unmarshal cluster_id index s))

  delete_service-safe :
      (s : Service) (log : List Call)
      → is_panic (delete_service (recorder refuses) unmarshal cluster_id index (some s) log).0
        ≡ false
  delete_service-safe s log =
      rw (delete_service-calls refuses unmarshal cluster_id index s log) refl

  update_service-safe :
      (old new : Service) (log : List Call)
      → is_panic (update_service (recorder refuses) unmarshal cluster_id index (some old) new log).0
        ≡ false
  update_service-safe old new log = elim (Bool-cases (is_exportable_service new)) [
    | inl exportable ↦
        rw (update_service-calls refuses unmarshal cluster_id index old new log exportable) (
          is_panic-replaced (listed (exported_of unmarshal cluster_id index old))
            (exported_of unmarshal cluster_id index new) log
            (exported_of-safe unmarshal cluster_id index new))
    | inr barred ↦
        rw (update_service-not_exportable refuses unmarshal cluster_id index old new log barred)
          refl
  ]

  update_service-none :
      (new : Service) (log : List Call)
      → update_service (recorder refuses) unmarshal cluster_id index none new log ≡ (panic, log)
  unfolding update_service delete_service olds_of
  update_service-none new log = elim (Bool-cases (is_exportable_service new)) [
    | inl exportable ↦ rw exportable refl
    | inr barred ↦ rw barred refl
  ]

  process_update-panics :
      (ko : KeyOp) (svc : Service) (s : State (recorder refuses) Q)
      → is_panic (process_update (recorder refuses) Q unmarshal cluster_id index ko svc s).0
        ≡ lacks_old (lookup ko.key s.cache_olds) (found svc)
  process_update-panics ko svc s = go (lookup ko.key s.cache_olds) refl
    where
      go :
          (o : Option Service)
          → lookup ko.key s.cache_olds ≡ o
          → is_panic (process_update (recorder refuses) Q unmarshal cluster_id index ko svc s).0
            ≡ lacks_old (lookup ko.key s.cache_olds) (found svc)
      go none e =
          unfold process_update in
          is_panic-concluded ko _ _ ∙ rw (e, update_service-none svc s.world) refl
      go (some old) e =
          unfold process_update in
          is_panic-concluded ko _ _ ∙ rw e (update_service-safe old svc s.world)

  process_delete-panics :
      (ko : KeyOp) (obj : Object) (s : State (recorder refuses) Q)
      → is_panic (process_delete (recorder refuses) Q unmarshal cluster_id index ko obj s).0
        ≡ is_other obj
  unfolding process_delete
  process_delete-panics ko other s = refl
  process_delete-panics ko (service svc) s =
      is_panic-concluded ko _ _ ∙ delete_service-safe svc s.world

  process_indexed-add :
      (ko : KeyOp) (i : Indexed) (s : State (recorder refuses) Q)
      → is_panic
          (process_indexed
            (recorder refuses)
            Q
            (process_add (recorder refuses) Q unmarshal cluster_id index)
            ko
            i
            s).0
        ≡ false
  unfolding process_indexed process_add
  process_indexed-add ko lookup_failed s = refl
  process_indexed-add ko absent s = refl
  process_indexed-add ko not_service s = refl
  process_indexed-add ko (found svc) s = is_panic-concluded ko _ _ ∙ add_service-safe svc s.world

  lacks_old-not_found :
      (o : Option Service) (i : Indexed)
      → ((svc : Service) → ¬ (i ≡ found svc))
      → lacks_old o i ≡ false
  lacks_old-not_found none lookup_failed h = refl
  lacks_old-not_found none absent h = refl
  lacks_old-not_found none not_service h = refl
  lacks_old-not_found none (found svc) h = absurd (h svc refl)
  lacks_old-not_found (some old) i h = refl

  process_indexed-update :
      (ko : KeyOp) (i : Indexed) (s : State (recorder refuses) Q)
      → is_panic
          (process_indexed
            (recorder refuses)
            Q
            (process_update (recorder refuses) Q unmarshal cluster_id index)
            ko
            i
            s).0
        ≡ lacks_old (lookup ko.key s.cache_olds) i
  unfolding process_indexed
  process_indexed-update ko lookup_failed s = sym (lacks_old-not_found _ lookup_failed λ svc e. cc)
  process_indexed-update ko absent s = sym (lacks_old-not_found _ absent λ svc e. cc)
  process_indexed-update ko not_service s = sym (lacks_old-not_found _ not_service λ svc e. cc)
  process_indexed-update ko (found svc) s = process_update-panics ko svc s

  process_item-panics :
      (op : Operation) (ko : KeyOp) (s : State (recorder refuses) Q)
      → is_panic (process_item (recorder refuses) Q unmarshal cluster_id index op ko s).0
        ≡ item_panics index s.cache_olds ko op
  unfolding process_item
  process_item-panics add_op ko s = process_indexed-add ko (index ko.key) s
  process_item-panics update_op ko s = process_indexed-update ko (index ko.key) s
  process_item-panics delete_op ko s = process_delete-panics ko ko.obj s

  -- On the target that writes down its calls, processNextItem panics exactly if the item it takes is an
  -- update of a Service that the index has and of which no old Service is remembered, or a deletion of
  -- something that is not a Service. It does not panic on an empty queue.
  pub process_next_item-panics :
      (s : State (recorder refuses) Q)
      → is_panic (process_next_item (recorder refuses) Q unmarshal cluster_id index s).0
        ≡ next_panics index s.cache_olds (Q.get s.queue).0
  unfolding process_next_item
  process_next_item-panics s = go (Q.get s.queue).0 (record s { queue = (Q.get s.queue).1 }) refl
    where
      go :
          (item : Option KeyOp) (s' : State (recorder refuses) Q)
          → s'.cache_olds ≡ s.cache_olds
          → is_panic (process_got (recorder refuses) Q unmarshal cluster_id index item s').0
            ≡ next_panics index s.cache_olds item
      go none s' e = unfold process_got in refl
      go (some ko) s' e =
          unfold process_got in
          process_item-panics ko.operation ko s'
          ∙ ap (λ olds. item_panics index olds ko ko.operation) e
