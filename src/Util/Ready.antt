-- ===== src/Util/Ready.antt =====
-- ShouldInclude: a node is exported while its grace period lasts, and else if it is ready.
use kube_service_exporter.Base.{
  ℕ, ◌<◌, ◌≡◌, refl, sym, ap, ◌∙◌, ◌↔◌, ◌⊎◌, inl, inr, true, false, Option, none, some, List, [],
  ◌∷◌, ◌++◌, arith, Bool-cases, All, Text, text_eq_iff, text_eq_self, text_eq,
}
use kube_service_exporter.Kube.{Node, NodeCondition, node_ready, condition_true, annotation}
use kube_service_exporter.Util.{
  get_node_condition, is_ready_and_schedulable, pretend_ready_until, grace, pretends,
  should_include,
}

-- a condition is the first of its type in a list: those before it have other types
pub record FirstOf (type : Text) (conditions : List NodeCondition) (c : NodeCondition)
    : Type 0 where
  pub before : List NodeCondition
  pub after : List NodeCondition
  pub split : conditions ≡ before ++ (c ∷ after)
  pub others : All (λ d. ¬ (d.type ≡ type)) before
  pub type_eq : c.type ≡ type

condition_inj : {a b : NodeCondition} → some a ≡ some b → a ≡ b
condition_inj h = cc

get_node_condition-FirstOf :
    (conditions : List NodeCondition) (type : Text) (c : NodeCondition)
    → get_node_condition conditions type ≡ some c
    → FirstOf type conditions c
unfolding get_node_condition
get_node_condition-FirstOf [] type c e = cc
get_node_condition-FirstOf (d ∷ conditions) type c e = elim (Bool-cases (text_eq d.type type)) [
  | inl here ↦
      let same : d ≡ c = condition_inj (rw here at e) in
      record {
        before = [];
        after = conditions;
        split = ap (λ x. x ∷ conditions) same;
        others = tt;
        type_eq = ap (λ x. x.type) (sym same) ∙ (text_eq_iff d.type type).0 here;
      }
  | inr other ↦
      let f = get_node_condition-FirstOf conditions type c (rw other at e) in
      record {
        before = d ∷ f.before;
        after = f.after;
        split = ap (λ l. d ∷ l) f.split;
        others = (λ h. absurd (ground (arith, (text_eq_iff d.type type).1 h)), f.others);
        type_eq = f.type_eq;
      }
]

FirstOf-get_node_condition :
    (before after : List NodeCondition) (type : Text) (c : NodeCondition)
    → All (λ d. ¬ (d.type ≡ type)) before
    → c.type ≡ type
    → get_node_condition (before ++ (c ∷ after)) type ≡ some c
unfolding get_node_condition
FirstOf-get_node_condition [] after type c others e = rw ((text_eq_iff c.type type).1 e) refl
FirstOf-get_node_condition (d ∷ before) after type c (other, others) e =
    elim (Bool-cases (text_eq d.type type)) [
      | inl same ↦ absurd (other ((text_eq_iff d.type type).0 same))
      | inr differs ↦ rw differs (FirstOf-get_node_condition before after type c others e)
    ]

-- the node counts as ready: it may be scheduled on, and its first Ready condition is "True"
pub record IsReady (node : Node) : Type 0 where
  pub schedulable : node.unschedulable ≡ false
  pub condition : NodeCondition
  pub first : FirstOf node_ready node.conditions condition
  pub status : condition.status ≡ condition_true

IsReady-iff : (node : Node) → (is_ready_and_schedulable node ≡ true) ↔ IsReady node
unfolding is_ready_and_schedulable
IsReady-iff node = (
  λ h. go (get_node_condition node.conditions node_ready) refl h,
  λ r.
      let first : get_node_condition node.conditions node_ready ≡ some r.condition =
        ap (λ l. get_node_condition l node_ready) r.first.split
        ∙ FirstOf-get_node_condition r.first.before r.first.after node_ready r.condition
            r.first.others r.first.type_eq in
      rw (r.schedulable, first, r.status) (text_eq_self condition_true),
)
  where
    go :
        (o : Option NodeCondition)
        → get_node_condition node.conditions node_ready ≡ o
        → is_ready_and_schedulable node ≡ true
        → IsReady node
    go none e h = ground arith
    go (some c) e h = record {
      schedulable = ground arith;
      condition = c;
      first = get_node_condition-FirstOf node.conditions node_ready c e;
      status = (text_eq_iff c.status condition_true).0 (ground arith);
    }

module _ (parse_time : Text → Option ℕ) (now : ℕ) (node : Node) where
  -- the node's annotation names an instant that is still to come
  abbrev pub InGrace : ℕ → Type 0
  InGrace until =
      (val : Text) × (annotation node.annotations pretend_ready_until ≡ some val)
      × (parse_time val ≡ some until)
      × (now < until)

  pretends_iff :
      (o : Option Text)
      → (until : ℕ)
      → (pretends parse_time now o ≡ some until)
        ↔ ((val : Text) × (o ≡ some val) × (parse_time val ≡ some until) × (now < until))
  unfolding pretends
  pretends_iff none until = (λ h. cc, λ (v, e, p, l). cc)
  pretends_iff (some val) until = (
    λ h. (val, refl, ground arith, ground arith),
    λ (v, e, p, l). ground (arith, ap parse_time (some_inj e)),
  )
    where
      some_inj : {a b : Text} → some a ≡ some b → a ≡ b
      some_inj e = cc

  -- ShouldInclude says yes exactly if the node's annotation names an instant that is still to come, or
  -- the node is schedulable and its first condition of type Ready has the status "True".
  pub should_include_iff :
      ((should_include parse_time now node).0 ≡ true)
      ↔ (((until : ℕ) × InGrace until) ⊎ IsReady node)
  unfolding should_include
  should_include_iff = (
    λ h. forward (pretends parse_time now (annotation node.annotations pretend_ready_until)) refl h,
    elim [
      | inl (until, g) ↦ rw ((pretends_iff _ until).1 g, should_include)
      | inr r ↦ ground (arith, (IsReady-iff node).1 r)
    ],
  )
    where
      forward :
          (o : Option ℕ)
          → pretends parse_time now (annotation node.annotations pretend_ready_until) ≡ o
          → (should_include parse_time now node).0 ≡ true
          → ((until : ℕ) × InGrace until) ⊎ IsReady node
      forward none e h = inr ((IsReady-iff node).0 (rw (e, should_include) at h))
      forward (some until) e h = inl (until, (pretends_iff _ until).0 e)

  should_include-parts :
      (0 < (should_include parse_time now node).1 → (until : ℕ) × InGrace until)
      × ((until : ℕ) → InGrace until → should_include parse_time now node ≡ (true, grace until now))
      × ((until : ℕ) → InGrace until → 0 < grace until now)
  unfolding should_include
  should_include-parts = (
    λ h. forward (pretends parse_time now (annotation node.annotations pretend_ready_until)) refl h,
    λ until g. rw ((pretends_iff _ until).1 g, should_include),
    λ until g. omega (arith, g.3),
  )
    where
      forward :
          (o : Option ℕ)
          → pretends parse_time now (annotation node.annotations pretend_ready_until) ≡ o
          → 0 < (should_include parse_time now node).1
          → (until : ℕ) × InGrace until
      forward none e h = absurd (omega (arith, (rw (e, should_include) at h)))
      forward (some until) e h = (until, (pretends_iff _ until).0 e)

  -- ShouldInclude asks to look at the node again after a positive time exactly if the annotation names an
  -- instant that is still to come, and that time is what is left until then, capped at the longest
  -- Duration.
  pub should_include-again :
      (t : ℕ)
      → (((should_include parse_time now node).1 ≡ t) × (0 < t))
        ↔ ((until : ℕ) × InGrace until × (grace until now ≡ t))
  should_include-again t = (
    λ (e, p).
        let (until, g) = should_include-parts.0 (rw e p) in
        (until, g, ap (λ r. r.1) (sym (should_include-parts.1 until g)) ∙ e),
    λ (until, g, e). (
      ap (λ r. r.1) (should_include-parts.1 until g) ∙ e,
      rw e at (should_include-parts.2 until g),
    ),
  )
