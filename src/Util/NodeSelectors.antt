-- ===== src/Util/NodeSelectors.antt =====
-- ParseNodeSelectors on nothing.
use kube_service_exporter.Base.{◌≡◌, refl, Option, List, [], Text}
use kube_service_exporter.Util.{
  no_selector, trim_space, trim_left, trim_right, parse_node_selectors,
}

-- the empty text is no selector
pub parse_node_selectors-empty :
    (decode : Text → Option (List Text)) → parse_node_selectors decode [] ≡ no_selector
unfolding parse_node_selectors trim_space trim_left trim_right
parse_node_selectors-empty decode = refl
