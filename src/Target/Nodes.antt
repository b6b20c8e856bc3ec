-- ===== src/Target/Nodes.antt =====
-- The document of WriteNodes: the nodes' internal addresses as a JSON array.
use kube_service_exporter.Base.{
  Bool, true, false, List, [], ◌∷◌, ◌++◌, ltb, ◌==◌, if◌then◌else◌, Text, codes, text_eq,
}
use kube_service_exporter.Go.Json.{Json, null, str, arr, obj, end, field, Items, nil, cons}
use kube_service_exporter.Kube.{Node, NodeAddress, node_internal_ip}

-- ExportedNode
pub record NodeEntry : Type 0 where
  pub name : Text
  pub address : Text

-- Less on exportedNodeList compares names
abbrev pub text_ltb : Text → Text → Bool
text_ltb [] [] = false
text_ltb [] (b ∷ t) = true
text_ltb (a ∷ s) [] = false
text_ltb (a ∷ s) (b ∷ t) = let rest = text_ltb s t in if a == b then rest else ltb a b

abbrev pub less : NodeEntry → NodeEntry → Bool
less a b = text_ltb a.name b.name

-- the addresses of type InternalIP of one node
unfoldable pub internal_ips : Text → List NodeAddress → List NodeEntry
internal_ips name [] = []
internal_ips name (a ∷ addresses) =
    let rest = internal_ips name addresses in
    if text_eq a.type node_internal_ip
    then record { name = name; address = a.address } ∷ rest
    else rest

unfoldable pub exported_nodes : List Node → List NodeEntry
exported_nodes [] = []
exported_nodes (n ∷ nodes) = internal_ips n.name n.addresses ++ exported_nodes nodes

unfoldable pub node_items : List NodeEntry → Items
node_items [] = nil
node_items (e ∷ es) =
    cons (obj (field (codes "Name") (str e.name) (field (codes "Address") (str e.address) end)))
      (node_items es)

-- a nil slice is null
unfoldable pub nodes_json : List NodeEntry → Json
unfolding node_items
nodes_json [] = null
nodes_json (e ∷ es) = arr (node_items (e ∷ es))
