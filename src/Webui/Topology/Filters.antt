-- ===== src/Webui/Topology/Filters.antt =====
-- server/webui/src/pages/Topology.tsx: `TopologyPage`: the filters, the part of the graph that they
-- leave, and the focus. The positions that dagre computes are left out, `lower` and `includes` are
-- the browser's `toLowerCase` and `includes` of texts, and `trim` its `trim`.
pub mod Shown
use Prim.Native.String
use pro_identity_access.Base.{
  ℕ, ◌+◌, String, Bool, true, false, not, ◌&&◌, ◌||◌, Option, none, some, List, [], ◌∷◌, ◌++◌, map,
  Dict, insert, find, has, keep, or_else, truthy, ◌==◌, if◌then◌else◌,
}
use pro_identity_access.Webui.Rows.{Topology, TrafficTopRow}
use pro_identity_access.Webui.Topology.{
  Kind, person, server, bundle, resource, Node, GraphEdge, Graph, Overlay, build_graph,
}
use pro_identity_access.Webui.Topology.Search.{Link, reachable_from_seeds}

pub record Filters : Type 0 where
  pub people : List String
  pub servers : List String
  pub bundles : List String
  pub resources : List String

abbrev pub empty_filters : Filters
empty_filters = record { people = []; servers = []; bundles = []; resources = [] }

-- `filters[kind]`
unfoldable pub selected : Kind → Filters → List String
selected person f = f.people
selected server f = f.servers
selected bundle f = f.bundles
selected resource f = f.resources

unfoldable pub select : Kind → List String → Filters → Filters
select person ids f = record f { people = ids }
select server ids f = record f { servers = ids }
select bundle ids f = record f { bundles = ids }
select resource ids f = record f { resources = ids }

unfoldable pub add_filter : Kind → String → Filters → Filters
add_filter kind id f =
    if has id (selected kind f) then f else select kind (selected kind f ++ id ∷ []) f

abbrev remove_filter : Kind → String → Filters → Filters
remove_filter kind id f = select kind (keep (λ x. not (x == id)) (selected kind f)) f

-- `trafficByPath`: the sum of both directions under each key that is not empty.
unfoldable traffic_by_path : List TrafficTopRow → Dict ℕ → Dict ℕ
traffic_by_path [] d = d
traffic_by_path (r ∷ rs) d =
    traffic_by_path rs (if truthy r.key then insert r.key (r.bytes_tx + r.bytes_rx) d else d)

abbrev overlay_of :
    (overlay : Bool) → List TrafficTopRow → ((bytes max_bytes : ℕ) → ℕ) → Option Overlay
overlay_of false rows width = none
overlay_of true rows width = some (record { by_path = traffic_by_path rows []; width = width })

-- `base`
abbrev base_graph :
    (overlay : Bool) → List TrafficTopRow → ((bytes max_bytes : ℕ) → ℕ) → Option Topology → Graph
unfolding traffic_by_path
base_graph overlay rows width none = record { nodes = []; edges = [] }
base_graph overlay rows width (some t) = build_graph (overlay_of overlay rows width) t

unfoldable pub is_selected : Filters → Node → Bool
is_selected f n = has n.source_id (selected n.kind f)

-- `filterSeeds`
unfoldable pub filter_seeds : Filters → Graph → List String
filter_seeds f g = map (λ n. n.id) (keep (is_selected f) g.nodes)

abbrev is_empty : List String → Bool
is_empty [] = true
is_empty (_ ∷ _) = false

unfoldable pub has_filters : Filters → Graph → Bool
unfolding filter_seeds
has_filters f g = not (is_empty (filter_seeds f g))

abbrev pub links : Graph → List Link
links g = map (λ e. record { source = e.source; target = e.target }) g.edges

-- `reachableFromSeeds`, which always answers.
unfoldable pub reached : List String → Graph → List String
reached seeds g = or_else (reachable_from_seeds seeds (links g)) []

-- The nodes that are in a set, and the edges with both ends in it.
unfoldable pub restrict : List String → Graph → Graph
restrict ids g = record {
  nodes = keep (λ n. has n.id ids) g.nodes;
  edges = keep (λ e. has e.source ids && has e.target ids) g.edges;
}

-- `laidOut`, without positions
unfoldable pub shown_graph : Filters → Graph → Graph
unfolding has_filters filter_seeds
shown_graph f g = if has_filters f g then restrict (reached (filter_seeds f g) g) g else g

abbrev flip : String → Option String → Option String
flip id none = some id
flip id (some s) = if s == id then none else some id

-- `onNodeClick`: a click on the node in focus takes the focus away.
abbrev click : String → Option String → Option String
click id focus = flip id focus

-- How a node is drawn.
pub record Look : Type 0 where
  pub selected : Bool
  pub dimmed : Bool

abbrev is_focus : Option String → String → Bool
is_focus none id = false
is_focus (some s) id = id == s

abbrev is_dimmed : Option String → Graph → String → Bool
is_dimmed none g id = false
is_dimmed (some s) g id = not (has id (reached (s ∷ []) g))

module _ (trim lower : String → String) (includes : (text part : String) → Bool) where
  abbrev matches_sub : Option String → String → Bool
  matches_sub none q = false
  matches_sub (some s) q = includes (lower s) q

  -- `matchedIds`
  unfoldable is_match : (search : String) → Node → Bool
  is_match search n =
      truthy (trim search)
      && (includes (lower n.label) (lower search) || matches_sub n.sub (lower search))

  -- `renderedNodes`
  abbrev look : (search : String) → Option String → Graph → Node → Look
  unfolding is_match
  look search focus g n = record {
    selected = is_focus focus n.id || is_match search n;
    dimmed = is_dimmed focus g n.id;
  }

abbrev is_lit : Option String → Graph → GraphEdge → Bool
is_lit none g e = true
is_lit (some s) g e = has e.source (reached (s ∷ []) g) && has e.target (reached (s ∷ []) g)

-- `renderedEdges`: is the edge drawn in full?
abbrev lit : Option String → Graph → GraphEdge → Bool
lit focus g e = is_lit focus g e

-- `labelFor`
abbrev label_for : Topology → Kind → String → String
label_for t person id = elim (find (λ p. p.id == id) t.people) [ none ↦ id | some p ↦ p.username ]
label_for t server id = elim (find (λ s. s.id == id) t.servers) [ none ↦ id | some s ↦ s.name ]
label_for t bundle id = elim (find (λ b. b.id == id) t.bundles) [ none ↦ id | some b ↦ b.name ]
label_for t resource id = elim (find (λ r. r.id == id) t.resources) [ none ↦ id | some r ↦ r.name ]
