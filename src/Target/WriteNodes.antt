-- ===== src/Target/WriteNodes.antt =====
-- WriteNodes: the list that is written, and when.
use kube_service_exporter.Base.{
  ◌≡◌, refl, ap, ◌∙◌, ◌↔◌, ◌⊎◌, inl, inr, Bool, true, false, Option, none, some, List, [], ◌∷◌,
  ◌++◌, arith, Bool-cases, Text, codes, text_eq_iff, text_eq,
}
use kube_service_exporter.Go.Json.{Json, null, str, arr, obj, end, field, Items, nil, cons}
use kube_service_exporter.Go.Act.{Ends, Ends-pure, Ends-if, Ends-weaken, Post}
use kube_service_exporter.Kube.{Node, NodeAddress, node_internal_ip}
use kube_service_exporter.Consul.{Consul, Laws}
use kube_service_exporter.Target.{TargetConfig, nodes_key, unchanged, put_nodes, write_nodes}
use kube_service_exporter.Target.Document.{Codec}
use kube_service_exporter.Target.Nodes.{
  NodeEntry, less, internal_ips, exported_nodes, node_items, nodes_json,
}
use kube_service_exporter.Target.Kv.{Same, SameBut, Same-refl, Same-SameBut, get-Ends, put-Ends}

-- being one of the elements
abbrev pub In : {A : Type 0} → A → List A → Type 0
In x [] = ⊥
In x (y ∷ ys) = (x ≡ y) ⊎ In x ys

module _ {A : Type 0} where
  In-append_left : (x : A) (xs ys : List A) → In x xs → In x (xs ++ ys)
  In-append_left x [] ys h = absurd h
  In-append_left x (y ∷ xs) ys (inl e) = inl e
  In-append_left x (y ∷ xs) ys (inr h) = inr (In-append_left x xs ys h)

  In-append_right : (x : A) (xs ys : List A) → In x ys → In x (xs ++ ys)
  In-append_right x [] ys h = h
  In-append_right x (y ∷ xs) ys h = inr (In-append_right x xs ys h)

  In-append : (x : A) (xs ys : List A) → In x (xs ++ ys) → In x xs ⊎ In x ys
  In-append x [] ys h = inr h
  In-append x (y ∷ xs) ys (inl e) = inl (inl e)
  In-append x (y ∷ xs) ys (inr h) = elim (In-append x xs ys h) [
    | inl p ↦ inl (inr p)
    | inr p ↦ inr p
  ]

-- the entry of an address of a node
abbrev pub entry : Node → NodeAddress → NodeEntry
entry n a = record { name = n.name; address = a.address }

-- an internal address among those of a node
abbrev pub Internal : Text → List NodeAddress → NodeEntry → Type 0
Internal name addresses e =
    (a : NodeAddress) × In a addresses
    × (a.type ≡ node_internal_ip)
    × (e ≡ record { name = name; address = a.address })

internal_ips_iff :
    (name : Text) (addresses : List NodeAddress) (e : NodeEntry)
    → In e (internal_ips name addresses) ↔ Internal name addresses e
unfolding internal_ips
internal_ips_iff name [] e = (λ h. absurd h, λ (a, i, p, q). absurd i)
internal_ips_iff name (x ∷ addresses) e = elim (Bool-cases (text_eq x.type node_internal_ip)) [
  | inl yes_ip ↦ rw yes_ip (
    elim [
      | inl p ↦ (x, inl refl, (text_eq_iff x.type node_internal_ip).0 yes_ip, p)
      | inr h ↦ let (a, i, p, q) = (internal_ips_iff name addresses e).0 h in (a, inr i, p, q)
    ],
    λ (a, i, p, q). elim i [
      | inl same ↦ inl (rw same at q)
      | inr j ↦ inr ((internal_ips_iff name addresses e).1 (a, j, p, q))
    ],
  )
  | inr no_ip ↦ rw no_ip (
    λ h. let (a, i, p, q) = (internal_ips_iff name addresses e).0 h in (a, inr i, p, q),
    λ (a, i, p, q). elim i [
      | inl same ↦ absurd (ground (arith, (text_eq_iff x.type node_internal_ip).1 (rw same at p)))
      | inr j ↦ (internal_ips_iff name addresses e).1 (a, j, p, q)
    ],
  )
]

-- The nodes that WriteNodes lists are exactly the addresses of type InternalIP of the given nodes,
-- each with the name of its node.
pub exported_nodes_iff :
    (nodes : List Node) (e : NodeEntry)
    → In e (exported_nodes nodes) ↔ ((n : Node) × In n nodes × Internal n.name n.addresses e)
unfolding exported_nodes
exported_nodes_iff [] e = (λ h. absurd h, λ (n, i, p). absurd i)
exported_nodes_iff (m ∷ nodes) e = (
  λ h. elim (In-append e (internal_ips m.name m.addresses) (exported_nodes nodes) h) [
    | inl p ↦ (m, inl refl, (internal_ips_iff m.name m.addresses e).0 p)
    | inr p ↦ let (n, i, q) = (exported_nodes_iff nodes e).0 p in (n, inr i, q)
  ],
  λ (n, i, p). elim i [
    | inl same ↦
        In-append_left e (internal_ips m.name m.addresses) (exported_nodes nodes)
          ((internal_ips_iff m.name m.addresses e).1 (rw same at p))
    | inr j ↦
        In-append_right e (internal_ips m.name m.addresses) (exported_nodes nodes)
          ((exported_nodes_iff nodes e).1 (n, j, p))
  ],
)

-- the members of an array give the name and the address of each entry, in order
abbrev pub Rows : List NodeEntry → Items → Type 0
Rows [] items = items ≡ nil
Rows (e ∷ es) items =
    (rest : Items) × Rows es rest
    × (items
        ≡ cons
            (obj (field (codes "Name") (str e.name) (field (codes "Address") (str e.address) end)))
            rest)

-- a JSON value gives a list of entries: null for none, and else an array
abbrev pub Renders : List NodeEntry → Json → Type 0
Renders [] j = j ≡ null
Renders (e ∷ es) j = (items : Items) × Rows (e ∷ es) items × (j ≡ arr items)

node_items-Rows : (es : List NodeEntry) → Rows es (node_items es)
unfolding node_items
node_items-Rows [] = refl
node_items-Rows (e ∷ es) = (node_items es, node_items-Rows es, refl)

nodes_json-Renders : (es : List NodeEntry) → Renders es (nodes_json es)
unfolding nodes_json
nodes_json-Renders [] = refl
nodes_json-Renders (e ∷ es) = (node_items (e ∷ es), node_items-Rows (e ∷ es), refl)

module _ (c : Consul) (laws : Laws c) (codec : Codec) (t : TargetConfig) (nodes : List Node) where
  open c use {World}
  open laws use {kv}

  -- the document of the nodes, in order of their names
  abbrev node_list : Text
  node_list = codec.encode (nodes_json (codec.sort_by less (exported_nodes nodes)))

  -- A document stands under its key, which lists exactly the internal addresses of the nodes, each with the
  -- name of its node, as sort.Sort orders them; and no other key has changed.
  pub record Listed (w w' : World) : Type 0 where
    pub entries : List NodeEntry
    pub exact :
        (e : NodeEntry) → In e entries ↔ ((n : Node) × In n nodes × Internal n.name n.addresses e)
    pub document : Json
    pub renders : Renders (codec.sort_by less entries) document
    pub written : kv w' (nodes_key t) ≡ some (codec.encode document)
    pub others : SameBut c laws (nodes_key t) w w'

  listed :
      {w w' : World}
      → kv w' (nodes_key t) ≡ some node_list
      → SameBut c laws (nodes_key t) w w'
      → Listed w w'
  listed written others = record {
    entries = exported_nodes nodes;
    exact = exported_nodes_iff nodes;
    document = nodes_json (codec.sort_by less (exported_nodes nodes));
    renders = nodes_json-Renders (codec.sort_by less (exported_nodes nodes));
    written = written;
    others = others;
  }

  unchanged-eq : (o : Option Text) (json : Text) → unchanged o json ≡ true → o ≡ some json
  unfolding unchanged
  unchanged-eq none json h = cc
  unchanged-eq (some value) json h = ap some ((text_eq_iff value json).0 h)

  put_nodes-Ends :
      (w₀ : World)
      → Ends
          (Same c laws w₀)
          (put_nodes c codec t nodes)
          (λ u w. Listed w₀ w)
          (SameBut c laws (nodes_key t) w₀)
  unfolding put_nodes
  put_nodes-Ends w₀ = get-Ends c laws w₀ weak (nodes_key t) λ o at.
      Ends-if (unchanged o node_list)
        (λ e.
          Ends-pure tt
            λ w p. listed (p.at_key (nodes_key t) ∙ at ∙ unchanged-eq o node_list e) (weak w p))
        (λ e.
          Ends-weaken (put-Ends c laws w₀ (nodes_key t) node_list) (λ w p. p)
            (λ u w (but, done). listed done but))
    where
      weak : (w : World) → Same c laws w₀ w → SameBut c laws (nodes_key t) w₀ w
      weak w s = Same-SameBut c laws (nodes_key t) s

  -- what a WriteNodes that succeeds leaves behind, and one that fails
  abbrev pub ListedFor : Bool → World → World → Type 0
  ListedFor true w w' = Listed w w'
  ListedFor false w w' = w' ≡ w

  abbrev pub UnlistedFor : Bool → World → World → Type 0
  UnlistedFor true w w' = SameBut c laws (nodes_key t) w w'
  UnlistedFor false w w' = ⊥

  -- Without leadership WriteNodes succeeds and makes no call at all. For the leader, a success leaves under
  -- the nodes' key a JSON array with a name and an address for each internal address of the nodes and
  -- for nothing else, as sort.Sort orders them (null if there is none); and success or not, no other
  -- key changes.
  pub write_nodes-kv :
      (w : World)
      → Post
          (λ u w'. ListedFor (c.is_leader w) w w')
          (UnlistedFor (c.is_leader w) w)
          (write_nodes c codec t nodes w).0
          (write_nodes c codec t nodes w).1
  unfolding write_nodes
  write_nodes-kv w = elim (Bool-cases (c.is_leader w)) [
    | inl leads ↦ rw leads ((put_nodes-Ends w).at w (Same-refl c laws w))
    | inr follows ↦ rw follows refl
  ]
