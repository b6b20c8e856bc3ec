-- ===== src/ServiceWatcher/Calls.antt =====
-- The calls that a service's turn makes, on a target that writes them down.
use kube_service_exporter.Base.{
  ◌≡◌, refl, ◌∙◌, inl, inr, Option, none, some, List, [], ◌∷◌, ◌++◌, map, append_assoc, append-nil,
  if◌then◌else◌, Bool-cases, Text,
}
use kube_service_exporter.Go.Run.{Error, Run, ok, err}
use kube_service_exporter.Util.{string_in_slice}
use kube_service_exporter.Export.{ExportedService, id}
use kube_service_exporter.ExportTarget.{ExportTarget}
use kube_service_exporter.ServiceWatcher.{
  former, dismiss, create_each, update_each, delete_removed, delete_each,
}

pub data Call : Type 0 where
  created deleted : ExportedService → Call
  updated : Option ExportedService → ExportedService → Call

abbrev pub outcome : Option Error → Run (Unit {0})
outcome none = ok tt
outcome (some e) = err e

-- the target writes down each call, and refuses where `refuses` says so
abbrev pub recorder : (Call → Option Error) → ExportTarget
recorder refuses = record {
  World = List Call;
  create = λ es log. (outcome (refuses (created es)), log ++ created es ∷ []);
  update = λ old es log. (outcome (refuses (updated old es)), log ++ updated old es ∷ []);
  delete = λ es log. (outcome (refuses (deleted es)), log ++ deleted es ∷ []);
  write_nodes = λ nodes log. (ok tt, log);
}

-- the services whose ids are not among the new ones
unfoldable pub removed : List Text → List ExportedService → List ExportedService
removed new_ids [] = []
removed new_ids (es ∷ more) =
    let rest = removed new_ids more in if string_in_slice (id es) new_ids then rest else es ∷ rest

dismiss-outcome : (o : Option Error) → dismiss (outcome o) ≡ ok tt
dismiss-outcome none = refl
dismiss-outcome (some e) = refl

module _ (refuses : Call → Option Error) where
  -- the error of the first call that refuses
  unfoldable pub failure : List Call → Option Error
  failure [] = none
  failure (c ∷ calls) =
      let rest = failure calls in elim (refuses c) [ none ↦ rest | some e ↦ some e ]

  -- the calls up to that one
  unfoldable pub made : List Call → List Call
  made [] = []
  made (c ∷ calls) = let rest = made calls in elim (refuses c) [ none ↦ c ∷ rest | some e ↦ c ∷ [] ]

  abbrev pub target : ExportTarget
  target = recorder refuses

  pub create_each-calls :
      (l : List ExportedService) (log : List Call)
      → create_each target l log ≡ (ok tt, log ++ map created l)
  unfolding create_each
  create_each-calls [] log = simp append-nil
  create_each-calls (es ∷ l) log =
      rw (dismiss-outcome (refuses (created es)))
        (create_each-calls l (log ++ created es ∷ []) ∙ simp append_assoc)

  pub delete_each-calls :
      (l : List ExportedService) (log : List Call)
      → delete_each target l log ≡ (ok tt, log ++ map deleted l)
  unfolding delete_each
  delete_each-calls [] log = simp append-nil
  delete_each-calls (es ∷ l) log =
      rw (dismiss-outcome (refuses (deleted es)))
        (delete_each-calls l (log ++ deleted es ∷ []) ∙ simp append_assoc)

  pub delete_removed-calls :
      (ids : List Text) (l : List ExportedService) (log : List Call)
      → delete_removed target ids l log ≡ (ok tt, log ++ map deleted (removed ids l))
  unfolding delete_removed removed
  delete_removed-calls ids [] log = simp append-nil
  delete_removed-calls ids (es ∷ l) log = elim (Bool-cases (string_in_slice (id es) ids)) [
    | inl kept ↦ rw kept (delete_removed-calls ids l log)
    | inr gone ↦
        rw (gone, dismiss-outcome (refuses (deleted es)))
          (delete_removed-calls ids l (log ++ deleted es ∷ []) ∙ simp append_assoc)
  ]

  -- the update that a new service is given
  abbrev pub update_of : List ExportedService → List ExportedService → ExportedService → Call
  update_of olds news es = updated (former olds news es) es

  pub update_each-calls :
      (olds news l : List ExportedService) (log : List Call)
      → update_each target olds news l log ≡ (
        outcome (failure (map (update_of olds news) l)),
        log ++ made (map (update_of olds news) l),
      )
  unfolding update_each failure made
  update_each-calls olds news [] log = simp append-nil
  update_each-calls olds news (es ∷ l) log =
      go (refuses (update_of olds news es)) refl
        (update_each-calls olds news l (log ++ update_of olds news es ∷ []))
    where
      go :
          (o : Option Error)
          → refuses (update_of olds news es) ≡ o
          → update_each target olds news l (log ++ update_of olds news es ∷ []) ≡ (
            outcome (failure (map (update_of olds news) l)),
            (log ++ update_of olds news es ∷ []) ++ made (map (update_of olds news) l),
          )
          → update_each target olds news (es ∷ l) log ≡ (
            outcome (failure (map (update_of olds news) (es ∷ l))),
            log ++ made (map (update_of olds news) (es ∷ l)),
          )
      go none e h = unfold update_each failure made in rw e (h ∙ simp append_assoc)
      go (some x) e h = unfold update_each failure made in rw e refl
