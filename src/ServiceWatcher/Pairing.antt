-- ===== src/ServiceWatcher/Pairing.antt =====
-- From which old exported service updateService updates each new one.
use kube_service_exporter.Base.{
  ◌≡◌, refl, sym, ap, ◌∙◌, ◌⊎◌, inl, inr, true, Option, none, some, List, [], ◌∷◌, ◌++◌, map, arith,
  Bool-cases, All, Text, text_eq_iff, text_eq,
}
use kube_service_exporter.Go.Run.{Error, Run, ok, err, panic}
use kube_service_exporter.Go.Json.{Json}
use kube_service_exporter.Kube.{Service}
use kube_service_exporter.Export.{ExportedService, id, is_exportable_service, Indexed}
use kube_service_exporter.ServiceWatcher.{matching, only_one, former, exported_of, update_service}
use kube_service_exporter.ServiceWatcher.Calls.{
  Call, deleted, updated, outcome, recorder, removed, failure, made, update_of,
}
use kube_service_exporter.ServiceWatcher.Handlers.{
  listed, behind, replaced, exported_of-safe, update_service-calls,
}

-- no service of the list has this Id
abbrev pub NoneWith : Text → List ExportedService → Type 0
NoneWith i l = All (λ o. ¬ (id o ≡ i)) l

-- the first service of the list that has this Id
pub record FirstWith (i : Text) (l : List ExportedService) (o : ExportedService) : Type 0 where
  pub before : List ExportedService
  pub after : List ExportedService
  pub split : l ≡ before ++ (o ∷ after)
  pub others : NoneWith i before
  pub same_id : id o ≡ i

-- each side has just one service, and `o` is the old one
pub record OnlyOne (olds news : List ExportedService) (o : ExportedService) : Type 0 where
  pub old : olds ≡ o ∷ []
  pub new : ExportedService
  pub only_new : news ≡ new ∷ []

-- what a new service used to be: the first old one with its Id, or else the only old one where there is just
-- one new one too, or else none
abbrev pub UsedToBe :
    List ExportedService → List ExportedService → ExportedService → Option ExportedService → Type 0
UsedToBe olds news n (some o) =
    FirstWith (id n) olds o ⊎ (NoneWith (id n) olds × OnlyOne olds news o)
UsedToBe olds news n none = NoneWith (id n) olds × ((o : ExportedService) → ¬ OnlyOne olds news o)

-- one call of Update for each new service, in order
abbrev pub Updates :
    List ExportedService → List ExportedService → List ExportedService → List Call → Type 0
Updates olds news [] calls = calls ≡ []
Updates olds news (n ∷ rest) calls =
    (o : Option ExportedService) × (more : List Call) × UsedToBe olds news n o
    × Updates olds news rest more
    × (calls ≡ updated o n ∷ more)

matching-FirstWith :
    (olds : List ExportedService) (es o : ExportedService)
    → matching olds es ≡ some o
    → FirstWith (id es) olds o
unfolding matching
matching-FirstWith [] es o e = cc
matching-FirstWith (first ∷ olds) es o e = elim (Bool-cases (text_eq (id es) (id first))) [
  | inl same ↦
      let here : first ≡ o = some_inj (rw same at e) in
      record {
        before = [];
        after = olds;
        split = ap (λ x. x ∷ olds) here;
        others = tt;
        same_id = ap id (sym here) ∙ sym ((text_eq_iff (id es) (id first)).0 same);
      }
  | inr other ↦
      let f = matching-FirstWith olds es o (rw other at e) in
      record {
        before = first ∷ f.before;
        after = f.after;
        split = ap (λ l. first ∷ l) f.split;
        others = (
          λ h. absurd (ground (arith, other, (text_eq_iff (id es) (id first)).1 (sym h))),
          f.others,
        );
        same_id = f.same_id;
      }
]
  where
    some_inj : {a b : ExportedService} → some a ≡ some b → a ≡ b
    some_inj f = cc

matching-NoneWith :
    (olds : List ExportedService) (es : ExportedService)
    → matching olds es ≡ none
    → NoneWith (id es) olds
unfolding matching
matching-NoneWith [] es e = tt
matching-NoneWith (first ∷ olds) es e = elim (Bool-cases (text_eq (id es) (id first))) [
  | inl same ↦ absurd (some-none (rw same at e))
  | inr other ↦ (
    λ h. absurd (ground (arith, other, (text_eq_iff (id es) (id first)).1 (sym h))),
    matching-NoneWith olds es (rw other at e),
  )
]
  where
    some-none : {a : ExportedService} → some a ≡ none → ⊥
    some-none f = cc

only_one-OnlyOne :
    (olds news : List ExportedService) (es : ExportedService)
    → NoneWith (id es) olds
    → UsedToBe olds news es (only_one olds news)
only_one-OnlyOne [] news es h = (h, λ o only. nil_cons only.old)
  where
    nil_cons : {a : ExportedService} → [] ≡ a ∷ [] → ⊥
    nil_cons e = cc
only_one-OnlyOne (a ∷ []) [] es h = (h, λ o only. nil_cons only.only_new)
  where
    nil_cons : {a : ExportedService} → [] ≡ a ∷ [] → ⊥
    nil_cons e = cc
only_one-OnlyOne (a ∷ []) (n ∷ []) es h = inr (h, record { old = refl; new = n; only_new = refl })
only_one-OnlyOne (a ∷ []) (n ∷ m ∷ news) es h = (h, λ o only. too_many only.only_new)
  where
    too_many : {b : ExportedService} → n ∷ m ∷ news ≡ b ∷ [] → ⊥
    too_many e = cc
only_one-OnlyOne (a ∷ b ∷ olds) news es h = (h, λ o only. too_many only.old)
  where
    too_many : {x : ExportedService} → a ∷ b ∷ olds ≡ x ∷ [] → ⊥
    too_many e = cc

former-UsedToBe :
    (olds news : List ExportedService) (es : ExportedService)
    → UsedToBe olds news es (former olds news es)
unfolding former
former-UsedToBe olds news es = go (matching olds es) refl
  where
    go :
        (m : Option ExportedService)
        → matching olds es ≡ m
        → UsedToBe olds news es (elim m [ none ↦ only_one olds news | some x ↦ some x ])
    go none e = only_one-OnlyOne olds news es (matching-NoneWith olds es e)
    go (some o) e = inl (matching-FirstWith olds es o e)

module _ (refuses : Call → Option Error) where
  update_of-Updates :
      (olds news l : List ExportedService)
      → Updates olds news l (map (update_of refuses olds news) l)
  update_of-Updates olds news [] = refl
  update_of-Updates olds news (n ∷ l) = (
    former olds news n,
    map (update_of refuses olds news) l,
    former-UsedToBe olds news n,
    update_of-Updates olds news l,
    refl,
  )

  -- how updateService ends for these old services, and the calls that it adds
  abbrev pub UpdatesMade :
      List ExportedService
      → Run (List ExportedService)
      → List Call
      → Run (Unit {0}) × List Call
      → Type 0
  UpdatesMade olds (ok news) log result =
      (updates : List Call) × Updates olds news news updates
      × (result ≡ (
        outcome (failure refuses updates),
        log
            ++ (made refuses updates
                ++ behind (failure refuses updates) (map deleted (removed (map id news) olds))),
      ))
  UpdatesMade olds (err e) log result = result ≡ (err e, log)
  UpdatesMade olds panic log result = ⊥

  module _ (unmarshal : Text → Option Json) (cluster_id : Text) (index : Text → Indexed) where
    -- On the target that writes down its calls: updateService for an exportable Service asks it to update
    -- each of its exported services, in order: from the first old one with the same Id or, where no old
    -- one has it and each side has just one, from that one, and else from none. It stops at the first that
    -- is refused, with that error. Else it asks to delete the old ones whose Ids no new one has, whatever
    -- the target says to that. If the new Service is wrong it makes no call and returns the error.
    pub update_service-UpdatesMade :
        (old new : Service) (log : List Call)
        → is_exportable_service new ≡ true
        → UpdatesMade
            (listed (exported_of unmarshal cluster_id index old))
            (exported_of unmarshal cluster_id index new)
            log
            (update_service (recorder refuses) unmarshal cluster_id index (some old) new log)
    update_service-UpdatesMade old new log exportable =
        rw (update_service-calls refuses unmarshal cluster_id index old new log exportable) (
          go (exported_of unmarshal cluster_id index new)
            (exported_of-safe unmarshal cluster_id index new))
      where
        go :
            (r : Run (List ExportedService))
            → ¬ (r ≡ panic)
            → UpdatesMade
                (listed (exported_of unmarshal cluster_id index old))
                r
                log
                (replaced refuses (listed (exported_of unmarshal cluster_id index old)) r log)
        go (ok news) safe = (
          map (update_of refuses (listed (exported_of unmarshal cluster_id index old)) news) news,
          update_of-Updates (listed (exported_of unmarshal cluster_id index old)) news news,
          refl,
        )
        go (err e) safe = refl
        go panic safe = absurd (safe refl)
