-- ===== src/Webui/Topology.antt =====
-- server/webui/src/pages/Topology.tsx: the graph of who reaches what, each person's chain of
-- servers, bundles and resources. A `Map` by id is a dictionary; `width` is the floating-point
-- `1 + Math.round((bytes / maxBytes) * 6)`, and colours, labels' styles and positions are left out.
pub mod Search
pub mod Built
pub mod Pairs
pub mod Filters
use Prim.Native.Char.{Char, code}
use Prim.Native.String
use pro_identity_access.Base.{
  ℕ, ◌+◌, String, Bool, true, false, Option, none, some, List, [], ◌∷◌, ◌++◌, map, Dict, lookup,
  insert, insert_all, values, has, or_else, max, nat_eq, truthy, ◌==◌, if◌then◌else◌,
}
use pro_identity_access.Webui.Types.{ResourceType, host, network}
use pro_identity_access.Webui.Rows.{Topology, Person, BundleNode, ResourceNode, ServerNode, Edge}
use pro_identity_access.Webui.Client.{decimal, path}

pub data Kind : Type 0 where
  person server bundle resource : Kind

unfoldable kind_name : Kind → String
kind_name person = "person"
kind_name server = "server"
kind_name bundle = "bundle"
kind_name resource = "resource"

pub record Node : Type 0 where
  pub id : String
  pub kind : Kind
  pub source_id : String
  pub label : String
  pub sub : Option String

-- What an edge shows: its width, and the bytes of its label.
pub data Style : Type 0 where
  bare : Style
  traffic : (width bytes : ℕ) → Style

pub record GraphEdge : Type 0 where
  pub id : String
  pub source : String
  pub target : String
  pub style : Style

-- The nodes and edges so far; `seenNodes` and `seenEdges` hold their ids.
pub record Graph : Type 0 where
  pub nodes : List Node
  pub edges : List GraphEdge

abbrev pub node_ids : Graph → List String
node_ids g = map (λ n. n.id) g.nodes

abbrev pub edge_ids : Graph → List String
edge_ids g = map (λ e. e.id) g.edges

unfoldable pub node_id : Kind → String → String
unfolding kind_name
node_id kind raw = path (kind_name kind ∷ ":" ∷ raw ∷ [])

-- `scopedId` without a bundle, and with one (an empty bundle id counts as none).
unfoldable pub scoped_id : Kind → (user_id server_id raw : String) → Option String → String
unfolding kind_name
scoped_id kind user_id server_id raw none =
    path (kind_name kind ∷ ":" ∷ user_id ∷ ":" ∷ server_id ∷ ":" ∷ raw ∷ [])
scoped_id kind user_id server_id raw (some bundle_id) =
    if truthy bundle_id
    then path (kind_name kind ∷ ":" ∷ user_id ∷ ":" ∷ server_id ∷ ":" ∷ bundle_id ∷ ":" ∷ raw ∷ [])
    else path (kind_name kind ∷ ":" ∷ user_id ∷ ":" ∷ server_id ∷ ":" ∷ raw ∷ [])

-- `value.slice(0, idx)` and `value.slice(idx + 1)` at the first colon, if there is one.
unfoldable pub split_colon : String → Option (String × String)
split_colon String.[] = none
split_colon (String.◌∷◌ c s) =
    let rest = split_colon s in
    if nat_eq (code c) b':'
    then some ("", s)
    else elim rest [ none ↦ none | some (u, v) ↦ some (String.◌∷◌ c u, v) ]

unfoldable both_parts : Option (String × String) → Option (String × String)
both_parts none = none
both_parts (some (user_id, server_id)) =
    if truthy user_id then (if truthy server_id then some (user_id, server_id) else none) else none

-- The user and the server of "user:server"; none if there is no colon, or nothing on one side.
unfoldable pub split_user_server : String → Option (String × String)
unfolding split_colon both_parts
split_user_server value = both_parts (split_colon value)

unfoldable pub push : Node → Graph → Graph
push n g = if has n.id (node_ids g) then g else record g { nodes = g.nodes ++ n ∷ [] }

unfoldable pub push_edge : GraphEdge → Graph → Graph
push_edge e g = if has e.id (edge_ids g) then g else record g { edges = g.edges ++ e ∷ [] }

-- The traffic overlay: the bytes of each path, and how wide a share of the most is drawn.
pub record Overlay : Type 0 where
  pub by_path : Dict ℕ
  pub width : (bytes max_bytes : ℕ) → ℕ

abbrev maximum : List ℕ → ℕ
maximum [] = 0
maximum (n ∷ ns) = max n (maximum ns)

abbrev style_edge : Option Overlay → (traffic_key : Option String) → Style
style_edge none key = bare
style_edge (some o) none = bare
style_edge (some o) (some key) =
    let most = maximum (values o.by_path) in
    let bytes = or_else (lookup key o.by_path) 0 in
    if nat_eq most 0
    then bare
    else if nat_eq bytes 0
    then bare
    else traffic (o.width bytes most) bytes

-- The maps from ids that the graph is built from.
pub record Index : Type 0 where
  pub people : Dict Person
  pub servers : Dict ServerNode
  pub bundles : Dict BundleNode
  pub resources : Dict ResourceNode

unfoldable pub index_of : Topology → Index
index_of t = record {
  people = insert_all (map (λ p. (p.id, p)) t.people) [];
  servers = insert_all (map (λ s. (s.id, s)) t.servers) [];
  bundles = insert_all (map (λ b. (b.id, b)) t.bundles) [];
  resources = insert_all (map (λ r. (r.id, r)) t.resources) [];
}

-- `resourcesByBundle`
abbrev add_resource :
    String → Option ResourceNode → Dict (List ResourceNode) → Dict (List ResourceNode)
add_resource bundle_id none d = d
add_resource bundle_id (some r) d = insert bundle_id (or_else (lookup bundle_id d) [] ++ r ∷ []) d

unfoldable resources_by_bundle :
    Dict ResourceNode → List Edge → Dict (List ResourceNode) → Dict (List ResourceNode)
resources_by_bundle resources [] d = d
resources_by_bundle resources (e ∷ es) d =
    resources_by_bundle resources es (add_resource e.from (lookup e.to resources) d)

abbrev cidr_of : ResourceType → Option ℕ → String → String
cidr_of network (some mask) ip = path (ip ∷ "/" ∷ decimal mask ∷ [])
cidr_of _ _ ip = ip

abbrev cidr : ResourceNode → String
cidr r = cidr_of r.type r.mask r.ip_address

module _ (overlay : Option Overlay) where
  abbrev person_node : Person → Node
  person_node p = record {
    id = node_id person p.id;
    kind = person;
    source_id = p.id;
    label = p.username;
    sub = some (if p.is_admin then "admin" else "");
  }

  abbrev server_node : Person → ServerNode → Node
  server_node p s = record {
    id = scoped_id server p.id s.id s.id none;
    kind = server;
    source_id = s.id;
    label = s.name;
    sub = some s.subnet;
  }

  abbrev bundle_node : Person → ServerNode → BundleNode → Node
  bundle_node p s b = record {
    id = scoped_id bundle p.id s.id b.id none;
    kind = bundle;
    source_id = b.id;
    label = b.name;
    sub = none;
  }

  abbrev resource_node : Person → ServerNode → BundleNode → ResourceNode → Node
  resource_node p s b r = record {
    id = scoped_id resource p.id s.id r.id (some b.id);
    kind = resource;
    source_id = r.id;
    label = r.name;
    sub = some (cidr r);
  }

  abbrev person_server_edge : Person → ServerNode → GraphEdge
  person_server_edge p s = record {
    id = path ("ps-" ∷ p.id ∷ "-" ∷ s.id ∷ []);
    source = node_id person p.id;
    target = scoped_id server p.id s.id s.id none;
    style = style_edge overlay none;
  }

  abbrev server_bundle_edge : Person → ServerNode → BundleNode → GraphEdge
  server_bundle_edge p s b = record {
    id = path ("sb-" ∷ p.id ∷ "-" ∷ s.id ∷ "-" ∷ b.id ∷ []);
    source = scoped_id server p.id s.id s.id none;
    target = scoped_id bundle p.id s.id b.id none;
    style = style_edge overlay none;
  }

  abbrev bundle_resource_edge : Person → ServerNode → BundleNode → ResourceNode → GraphEdge
  bundle_resource_edge p s b r = record {
    id = path ("br-" ∷ p.id ∷ "-" ∷ s.id ∷ "-" ∷ b.id ∷ "-" ∷ r.id ∷ []);
    source = scoped_id bundle p.id s.id b.id none;
    target = scoped_id resource p.id s.id r.id (some b.id);
    style = style_edge overlay (some (path (p.id ∷ ":" ∷ s.id ∷ ":" ∷ r.id ∷ [])));
  }

  unfoldable pub add_server : Person → ServerNode → Graph → Graph
  add_server p s g =
      push_edge (person_server_edge p s) (push (server_node p s) (push (person_node p) g))

  unfoldable pub add_resources :
      Person → ServerNode → BundleNode → List ResourceNode → Graph → Graph
  add_resources p s b [] g = g
  add_resources p s b (r ∷ rs) g =
      add_resources p s b rs
        (push_edge (bundle_resource_edge p s b r) (push (resource_node p s b r) g))

  unfoldable pub add_bundle : Person → ServerNode → BundleNode → List ResourceNode → Graph → Graph
  add_bundle p s b rs g = add_resources p s b rs (
      push_edge (server_bundle_edge p s b) (
        push_edge (person_server_edge p s)
          (push (bundle_node p s b) (push (server_node p s) (push (person_node p) g)))))

  abbrev server_step : Option Person → Option ServerNode → Graph → Graph
  server_step (some p) (some s) g = add_server p s g
  server_step _ _ g = g

  -- The loop over `person_server`.
  unfoldable pub add_servers : Index → List Edge → Graph → Graph
  add_servers i [] g = g
  add_servers i (e ∷ es) g =
      add_servers i es (server_step (lookup e.from i.people) (lookup e.to i.servers) g)

  abbrev bundle_step :
      Dict (List ResourceNode)
      → Option Person
      → Option ServerNode
      → Option BundleNode
      → Graph
      → Graph
  bundle_step by_bundle (some p) (some s) (some b) g =
      add_bundle p s b (or_else (lookup b.id by_bundle) []) g
  bundle_step by_bundle _ _ _ g = g

  abbrev pair_step :
      Index → Dict (List ResourceNode) → Option (String × String) → String → Graph → Graph
  pair_step i by_bundle none to g = g
  pair_step i by_bundle (some (user_id, server_id)) to g =
      bundle_step by_bundle (lookup user_id i.people) (lookup server_id i.servers)
        (lookup to i.bundles) g

  -- The loop over `user_bundle`.
  unfoldable pub add_bundles : Index → Dict (List ResourceNode) → List Edge → Graph → Graph
  add_bundles i by_bundle [] g = g
  add_bundles i by_bundle (e ∷ es) g =
      add_bundles i by_bundle es (pair_step i by_bundle (split_user_server e.from) e.to g)

  unfoldable pub build_graph : Topology → Graph
  unfolding index_of resources_by_bundle
  build_graph t =
      let i = index_of t in
      add_bundles i (resources_by_bundle i.resources t.bundle_resource []) t.user_bundle
        (add_servers i t.person_server (record { nodes = []; edges = [] }))
