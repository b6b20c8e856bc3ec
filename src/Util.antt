-- ===== src/Util.antt =====
-- pkg/util: util.go and node_ready_checker.go. The clock and time.Parse are arguments: an instant is
-- its distance in nanoseconds from a fixed origin before all that RFC 3339 can name.
mod Tests
pub mod DomainName
pub mod Ready
pub mod NodeSelectors
use kube_service_exporter.Base.{
  ℕ, ◌+◌, ◌-◌, ◌^◌, Bool, true, false, not, ◌&&◌, ◌||◌, Option, none, some, List, [], ◌∷◌, ltb, leb,
  ◌==◌, if◌then◌else◌, length, Text, codes, is_empty, text_eq, has_prefix,
}
use Prim.Native.Nat.{min}
use kube_service_exporter.Go.Strconv.{is_digit}
use kube_service_exporter.Kube.{Node, NodeCondition, node_ready, condition_true, annotation}

unfoldable pub string_in_slice : Text → List Text → Bool
string_in_slice str [] = false
string_in_slice str (s ∷ strs) =
    let rest = string_in_slice str strs in if text_eq s str then true else rest

-- IsDomainName

is_letter : ℕ → Bool
is_letter c = leb b'a' c && leb c b'z' || leb b'A' c && leb c b'Z' || c == b'_'

-- the variables of the loop
record Scan : Type 0 where
  last : ℕ
  non_numeric : Bool
  partlen : ℕ

-- the switch in the loop's body, with `none` for `return false`
scan_byte : Scan → ℕ → Option Scan
unfolding is_letter is_digit
scan_byte st c =
    if is_letter c
    then some (record { last = c; non_numeric = true; partlen = st.partlen + 1 })
    else if is_digit c
    then some (record { last = c; non_numeric = st.non_numeric; partlen = st.partlen + 1 })
    else if c == b'-'
    then (if st.last == b'.'
        then none
        else some (record { last = c; non_numeric = true; partlen = st.partlen + 1 }))
    else if c == b'.'
    then (if st.last == b'.' || st.last == b'-'
        then none
        else if ltb 63 st.partlen || st.partlen == 0
        then none
        else some (record { last = c; non_numeric = st.non_numeric; partlen = 0 }))
    else none

scan : Scan → Text → Bool
scan st [] = if st.last == b'-' || ltb 63 st.partlen then false else st.non_numeric
scan st (c ∷ s) = elim (scan_byte st c) [ none ↦ false | some st' ↦ scan st' s ]

-- the last byte of a text, or `d` if it has none
abbrev last_or : ℕ → Text → ℕ
last_or d [] = d
last_or d (c ∷ s) = last_or c s

unfoldable pub is_domain_name : Text → Bool
unfolding scan scan_byte text_eq
is_domain_name s =
    let l = length s in
    if text_eq s (b'.' ∷ [])
    then true
    else if l == 0 || ltb 254 l || l == 254 && not (last_or b'.' s == b'.')
    then false
    else scan (record { last = b'.'; non_numeric = false; partlen = 0 }) s

-- ParseNodeSelectors. `decode` is encoding/json's Unmarshal into a slice of strings.

-- the white space of strings.TrimSpace among the ASCII bytes
is_space : ℕ → Bool
is_space c = leb 9 c && leb c 13 || c == b' '

trim_left : Text → Text
trim_left [] = []
trim_left (c ∷ s) = let rest = trim_left s in if is_space c then rest else c ∷ s

trim_right : Text → Text
trim_right [] = []
trim_right (c ∷ s) = let rest = trim_right s in if is_space c && is_empty rest then [] else c ∷ rest

pub trim_space : Text → Text
unfolding trim_left trim_right is_space
trim_space s = trim_right (trim_left s)

pub data Selectors : Type 0 where
  no_selector bad_selectors : Selectors
  parsed : List Text → Selectors

pub parse_node_selectors : (Text → Option (List Text)) → Text → Selectors
unfolding trim_space has_prefix
parse_node_selectors decode selectors =
    let s = trim_space selectors in
    if is_empty s
    then no_selector
    else if has_prefix (b'[' ∷ []) s
    then elim (decode s) [ none ↦ bad_selectors | some l ↦ parsed l ]
    else parsed (s ∷ [])

-- the first condition of a type
pub get_node_condition : List NodeCondition → Text → Option NodeCondition
get_node_condition [] t = none
get_node_condition (c ∷ cs) t =
    let rest = get_node_condition cs t in if text_eq c.type t then some c else rest

pub is_ready_and_schedulable : Node → Bool
is_ready_and_schedulable node =
    if node.unschedulable then false else elim (get_node_condition node.conditions node_ready) [
      | none ↦ false
      | some c ↦ text_eq c.status condition_true
    ]

unfoldable pub pretend_ready_until : Text
pretend_ready_until = codes "kube-service-exporter.github.com/pretend-ready-until"

-- the longest time.Duration, at which Time.Sub saturates
abbrev pub max_duration : ℕ
max_duration = 2 ^ 63 - 1

-- `pretendReadyUntil.Sub(now)`, called only after `now`
abbrev pub grace : ℕ → ℕ → ℕ
grace until now = min (until - now) max_duration

module _ (parse_time : Text → Option ℕ) (now : ℕ) where
  -- the end of the grace period that is still to come, if there is one
  pub pretends : Option Text → Option ℕ
  pretends none = none
  pretends (some val) = elim (parse_time val) [
    | none ↦ none
    | some until ↦ if ltb now until then some until else none
  ]

  unfoldable pub should_include : Node → Bool × ℕ
  unfolding pretends
  should_include node = elim (pretends (annotation node.annotations pretend_ready_until)) [
    | none ↦ (is_ready_and_schedulable node, 0)
    | some until ↦ (true, grace until now)
  ]
