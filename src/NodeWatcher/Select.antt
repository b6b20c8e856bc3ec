-- ===== src/NodeWatcher/Select.antt =====
-- Which nodes exportNodes chooses.
use kube_service_exporter.Base.{
  ℕ, ◌≡◌, refl, Bool, true, false, Option, none, some, List, [], ◌∷◌, arith, ltb, ◌==◌,
  if◌then◌else◌, length, Text,
}
use kube_service_exporter.Go.Run.{Run, ok, err, panic}
use kube_service_exporter.Kube.{Node}
use kube_service_exporter.NodeWatcher.{included, select}

-- the nodes of a choice
abbrev pub nodes_of : Run (List Node × Text) → Run (List Node)
nodes_of (ok (nodes, s)) = ok nodes
nodes_of (err e) = err e
nodes_of panic = panic

module _ (parse_time : Text → Option ℕ) (now : ℕ) where
  module _ (list : Text → Option (List Node)) (min_count : ℕ) where
    -- the nodes that a selector is good for: none where it does not parse
    abbrev pub candidates : Text → List Node
    candidates s = elim (list s) [ none ↦ [] | some nodes ↦ included parse_time now nodes ]

    abbrev pub enough : Text → Bool
    enough s = ltb min_count (length (candidates s))

    -- a selector that does not parse comes before every one that has more than `min_count` candidates
    pub meets_bad : List Text → Bool
    meets_bad [] = false
    meets_bad (s ∷ selectors) =
        let rest = meets_bad selectors in
        elim (list s) [ none ↦ true | some nodes ↦ if enough s then false else rest ]

    -- the candidates of the first selector that has more than `min_count` of them
    pub first_enough : List Text → Option (List Node)
    first_enough [] = none
    first_enough (s ∷ selectors) =
        let rest = first_enough selectors in if enough s then some (candidates s) else rest

    -- the candidates of the last selector that has any
    pub last_some : List Text → Option (List Node)
    last_some [] = none
    last_some (s ∷ selectors) = elim (last_some selectors) [
      | some nodes ↦ some nodes
      | none ↦ if length (candidates s) == 0 then none else some (candidates s)
    ]

    -- the first of the two that there is, or else these nodes
    abbrev pub chosen : Option (List Node) → Option (List Node) → List Node → List Node
    chosen (some nodes) other found_so_far = nodes
    chosen none (some nodes) found_so_far = nodes
    chosen none none found_so_far = found_so_far

    select-from :
        (selectors : List Text) (found_so_far : List Node) (last : Text)
        → nodes_of (select parse_time now list min_count selectors (found_so_far, last)) ≡ (
            if meets_bad selectors
            then panic
            else ok (chosen (first_enough selectors) (last_some selectors) found_so_far))
    unfolding select first_enough last_some meets_bad
    select-from [] found_so_far last = refl
    select-from (s ∷ selectors) found_so_far last =
        go (list s) refl λ nodes. select-from selectors nodes s
      where
        go :
            (o : Option (List Node))
            → list s ≡ o
            → ((nodes : List Node)
                → nodes_of (select parse_time now list min_count selectors (nodes, s)) ≡ (
                    if meets_bad selectors
                    then panic
                    else ok (chosen (first_enough selectors) (last_some selectors) nodes)))
            → nodes_of (select parse_time now list min_count (s ∷ selectors) (found_so_far, last))
              ≡ (if meets_bad (s ∷ selectors)
                  then panic
                  else ok (
                      chosen
                        (first_enough (s ∷ selectors))
                        (last_some (s ∷ selectors))
                        found_so_far))
        go none e rest = unfold select meets_bad in rw (nodes_of, e, select, meets_bad) refl
        go (some nodes) e rest =
            unfold select first_enough last_some meets_bad in
            rw (nodes_of, e, select, meets_bad)
              (ground (arith, rest found_so_far, rest (included parse_time now nodes)))

    pub select-chosen :
        (selectors : List Text)
        → nodes_of (select parse_time now list min_count selectors ([], [])) ≡ (
            if meets_bad selectors
            then panic
            else ok (chosen (first_enough selectors) (last_some selectors) []))
    select-chosen selectors = select-from selectors [] []
