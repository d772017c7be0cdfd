-- ===== src/Webui/Topology/Search/Adjacent.antt =====
-- The adjacency map of the search says which nodes are linked.
use pro_identity_access.Base.{
  has-append, String, Bool, ◌≡◌, ◌&&◌, ◌||◌, List, [], ◌∷◌, Dict, lookup, lookup-insert, has, any,
  or_else, ◌==◌, eq_iff, arith,
}
use pro_identity_access.Webui.Topology.Search.{
  Link, set_add, ensure, add_neighbour, add_link, adjacency, neighbours,
}

-- Two nodes are the ends of a link, either way round.
abbrev pub linked : List Link → String → String → Bool
linked links u v =
    any (λ e. (e.source == u && e.target == v) || (e.target == u && e.source == v)) links

has-set_add : (v x : String) (xs : List String) → has v (set_add x xs) ≡ (has v xs || v == x)
unfolding set_add
has-set_add v x xs = ground (arith, has-append v xs (x ∷ []), eq_iff v x)

neighbours-ensure :
    (v k : String) (adj : Dict (List String)) → neighbours (ensure k adj) v ≡ neighbours adj v
unfolding ensure neighbours
neighbours-ensure v k adj = ground (arith, lookup-insert k v [] adj, eq_iff k v)

neighbours-add_neighbour :
    (u v a b : String) (adj : Dict (List String))
    → has v (neighbours (add_neighbour a b adj) u)
      ≡ (has v (neighbours adj u) || (a == u && b == v))
unfolding add_neighbour neighbours
neighbours-add_neighbour u v a b adj = ground (
  arith,
  lookup-insert a u (set_add b (or_else (lookup a adj) [])) adj,
  eq_iff a u,
  eq_iff v b,
  eq_iff b v,
  has-set_add v b (or_else (lookup a adj) []),
)

adjacency_from :
    (u v : String) (links : List Link) (adj : Dict (List String))
    → has v (neighbours (adjacency links adj) u) ≡ (has v (neighbours adj u) || linked links u v)
unfolding adjacency add_link
adjacency_from u v [] adj = ground arith
adjacency_from u v (e ∷ es) adj = ground (
  arith,
  adjacency_from u v es (add_link e adj),
  neighbours-add_neighbour u v e.target e.source
      (add_neighbour e.source e.target (ensure e.target (ensure e.source adj))),
  neighbours-add_neighbour u v e.source e.target (ensure e.target (ensure e.source adj)),
  neighbours-ensure u e.target (ensure e.source adj),
  neighbours-ensure u e.source adj,
)

pub neighbours-adjacency :
    (u v : String) (links : List Link)
    → has v (neighbours (adjacency links []) u) ≡ linked links u v
unfolding neighbours lookup
neighbours-adjacency u v links = adjacency_from u v links []
