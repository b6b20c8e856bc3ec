-- ===== src/ServiceWatcher/Handlers.antt =====
-- addService, updateService and deleteService: the calls that each makes, and that none of them panics
-- on a Service.
use kube_service_exporter.Base.{
  ◌≡◌, refl, ap, ◌∙◌, inl, inr, true, false, Option, none, some, List, [], ◌∷◌, ◌++◌, map,
  append_assoc, append-nil, Bool-cases, Text,
}
use kube_service_exporter.Go.Run.{Error, Run, ok, err, panic, Safe-panic}
use kube_service_exporter.Go.Act.{continue, ◌>>=◌}
use kube_service_exporter.Go.Json.{Json}
use kube_service_exporter.Kube.{Service}
use kube_service_exporter.Util.{string_in_slice}
use kube_service_exporter.Export.{
  ExportedService, id, is_exportable_service, Indexed, new_exported_services,
}
use kube_service_exporter.Export.Merge.{new_exported_services-Safe}
use kube_service_exporter.ServiceWatcher.{
  create_each, update_each, delete_removed, exported_of, olds_of, add_service, delete_service,
  update_service,
}
use kube_service_exporter.ServiceWatcher.Calls.{
  Call, created, deleted, outcome, recorder, removed, failure, made, update_of, create_each-calls,
  delete_each-calls, delete_removed-calls, update_each-calls,
}

-- the services of a list that may have failed
abbrev pub listed : Run (List ExportedService) → List ExportedService
listed (ok l) = l
listed (err e) = []
listed panic = []

-- what is done behind a loop that stops at its first error
abbrev pub behind : Option Error → List Call → List Call
behind none calls = calls
behind (some e) calls = []

-- addService for what NewExportedServicesFromKubeService returned
abbrev pub added : Run (List ExportedService) → List Call → Run (Unit {0}) × List Call
added (ok l) log = (ok tt, log ++ map created l)
added (err e) log = (err e, log)
added panic log = (panic, log)

module _ (unmarshal : Text → Option Json) (cluster_id : Text) (index : Text → Indexed) where
  pub exported_of-not_exportable :
      (s : Service)
      → is_exportable_service s ≡ false
      → exported_of unmarshal cluster_id index s ≡ ok []
  unfolding exported_of new_exported_services
  exported_of-not_exportable s h = rw h refl

  pub exported_of-safe : (s : Service) → ¬ (exported_of unmarshal cluster_id index s ≡ panic)
  unfolding exported_of
  exported_of-safe s = Safe-panic (new_exported_services-Safe unmarshal index s cluster_id)

  pub olds_of-listed :
      (s : Service)
      → olds_of unmarshal cluster_id index (some s)
        ≡ ok (listed (exported_of unmarshal cluster_id index s))
  unfolding olds_of
  olds_of-listed s = go (exported_of unmarshal cluster_id index s) refl
    where
      go :
          (r : Run (List ExportedService))
          → exported_of unmarshal cluster_id index s ≡ r
          → olds_of unmarshal cluster_id index (some s)
            ≡ ok (listed (exported_of unmarshal cluster_id index s))
      go (ok l) e = unfold olds_of in rw e refl
      go (err x) e = unfold olds_of in rw e refl
      go panic e = absurd (exported_of-safe s e)

-- no new ids: all are gone
removed-nil : (l : List ExportedService) → removed [] l ≡ l
unfolding removed string_in_slice
removed-nil [] = refl
removed-nil (es ∷ l) = ap (λ t. es ∷ t) (removed-nil l)

module _ (refuses : Call → Option Error) where
  -- updateService for the services that there were, and those that there are
  abbrev pub replaced :
      List ExportedService → Run (List ExportedService) → List Call → Run (Unit {0}) × List Call
  replaced olds (ok news) log =
      let updates = map (update_of refuses olds news) news in
      let gone = map deleted (removed (map id news) olds) in
      (
        outcome (failure refuses updates),
        log ++ (made refuses updates ++ behind (failure refuses updates) gone),
      )
  replaced olds (err e) log = (err e, log)
  replaced olds panic log = (panic, log)

  module _ (unmarshal : Text → Option Json) (cluster_id : Text) (index : Text → Indexed) where
    -- On the target that writes down its calls: addService asks it to create each exported service of the Service, in order, whichever of
    -- them the target refuses; if there are none because the Service is wrong, it makes no call and
    -- returns the error.
    pub add_service-calls :
        (s : Service) (log : List Call)
        → add_service (recorder refuses) unmarshal cluster_id index s log
          ≡ added (exported_of unmarshal cluster_id index s) log
    unfolding add_service
    add_service-calls s log = elim (Bool-cases (is_exportable_service s)) [
      | inl exportable ↦ rw exportable (go (exported_of unmarshal cluster_id index s))
      | inr barred ↦
          rw (barred, exported_of-not_exportable unmarshal cluster_id index s barred)
            (simp append-nil)
    ]
      where
        go :
            (r : Run (List ExportedService))
            → continue r (create_each (recorder refuses)) log ≡ added r log
        go (ok l) = create_each-calls refuses l log
        go (err e) = refl
        go panic = refl

    -- On the target that writes down its calls: deleteService asks it to delete each exported service of the Service, in order, whichever
    -- of them the target refuses to delete; a Service that is wrong has none.
    pub delete_service-calls :
        (s : Service) (log : List Call)
        → delete_service (recorder refuses) unmarshal cluster_id index (some s) log
          ≡ (ok tt, log ++ map deleted (listed (exported_of unmarshal cluster_id index s)))
    unfolding delete_service
    delete_service-calls s log =
        rw (olds_of-listed unmarshal cluster_id index s)
          (delete_each-calls refuses (listed (exported_of unmarshal cluster_id index s)) log)

    -- On the target that writes down its calls: updateService for an exportable Service asks it to update each of its exported services,
    -- in order, from what `former` finds among the old ones. It
    -- stops at the first that is refused, with that error. Else it asks to delete the old ones whose
    -- Ids no new one has, whatever the target says to that. If the new Service is wrong it makes no
    -- call and returns the error.
    pub update_service-calls :
        (old new : Service) (log : List Call)
        → is_exportable_service new ≡ true
        → update_service (recorder refuses) unmarshal cluster_id index (some old) new log
          ≡ replaced
              (listed (exported_of unmarshal cluster_id index old))
              (exported_of unmarshal cluster_id index new)
              log
    unfolding update_service
    update_service-calls old new log exportable =
        rw (exportable, olds_of-listed unmarshal cluster_id index old)
          (go (listed (exported_of unmarshal cluster_id index old))
            (exported_of unmarshal cluster_id index new))
      where
        finish :
            (olds news : List ExportedService) (u : List Call) (o : Option Error)
            → continue
                (outcome o)
                (λ x. delete_removed (recorder refuses) (map id news) olds)
                (log ++ u)
              ≡ (outcome o, log ++ (u ++ behind o (map deleted (removed (map id news) olds))))
        finish olds news u none =
            delete_removed-calls refuses (map id news) olds (log ++ u) ∙ simp append_assoc
        finish olds news u (some e) = simp append-nil

        go :
            (olds : List ExportedService) (r : Run (List ExportedService))
            → continue r
                (λ news. update_each (recorder refuses) olds news news >>= λ u.
                  delete_removed (recorder refuses) (map id news) olds)
                log
              ≡ replaced olds r log
        go olds (ok news) = rw (update_each-calls refuses olds news news log) (
            finish olds news (made refuses (map (update_of refuses olds news) news))
              (failure refuses (map (update_of refuses olds news) news)))
        go olds (err e) = refl
        go olds panic = refl

    -- On the target that writes down its calls: updateService for a Service that is no longer exportable
    -- asks it to delete each exported
    -- service of the old one, in order, and then does the same once more; it returns no error.
    pub update_service-not_exportable :
        (old new : Service) (log : List Call)
        → is_exportable_service new ≡ false
        → update_service (recorder refuses) unmarshal cluster_id index (some old) new log ≡ (
          ok tt,
          (log ++ map deleted (listed (exported_of unmarshal cluster_id index old)))
              ++ map deleted (listed (exported_of unmarshal cluster_id index old)),
        )
    unfolding update_service
    update_service-not_exportable old new log barred =
        rw
          (
            barred,
            delete_service-calls old log,
            olds_of-listed unmarshal cluster_id index old,
            exported_of-not_exportable unmarshal cluster_id index new barred,
          )
          (again (listed (exported_of unmarshal cluster_id index old)) _)
      where
        again :
            (olds : List ExportedService) (log' : List Call)
            → delete_removed (recorder refuses) [] olds log' ≡ (ok tt, log' ++ map deleted olds)
        again olds log' = delete_removed-calls refuses [] olds log' ∙ rw (removed-nil olds) refl
