-- ===== src/Webui/Topology/Built.antt =====
-- The graph that is built: every edge joins two of its nodes, and no node or edge stands twice.
use pro_identity_access.Base.{
  has-append, String, true, false, ◌≡◌, refl, ap, inl, inr, ◌||◌, Option, none, some, List, [], ◌∷◌,
  ◌++◌, map, Dict, lookup, has, or_else, All, All-append, Bool-cases, ◌==◌, eq_iff, eq_refl, arith,
}
use pro_identity_access.Webui.Rows.{Topology, Person, BundleNode, ResourceNode, ServerNode, Edge}
use pro_identity_access.Webui.Topology.{
  Node, GraphEdge, Graph, Overlay, Index, node_ids, edge_ids, push, push_edge, person_node,
  server_node, bundle_node, resource_node, person_server_edge, server_bundle_edge,
  bundle_resource_edge, add_server, add_resources, add_bundle, server_step, add_servers,
  bundle_step, pair_step, add_bundles, build_graph, split_user_server, index_of,
}

-- No text stands twice in a list.
abbrev pub IsDistinct : List String → Type 0
IsDistinct [] = Unit
IsDistinct (x ∷ xs) = (has x xs ≡ false) × IsDistinct xs

abbrev pub Joins : List String → GraphEdge → Type 0
Joins ids e = (has e.source ids ≡ true) × (has e.target ids ≡ true)

pub record IsGraph (g : Graph) : Type 0 where
  pub nodes_once : IsDistinct (node_ids g)
  pub edges_once : IsDistinct (edge_ids g)
  pub joined : All (Joins (node_ids g)) g.edges

map-append_last {ℓ} :
    {A : Type ℓ} (f : A → String) (xs : List A) (x : A)
    → map f (xs ++ x ∷ []) ≡ map f xs ++ f x ∷ []
map-append_last f [] x = refl
map-append_last f (y ∷ xs) x = ap (λ ys. f y ∷ ys) (map-append_last f xs x)

IsDistinct-append :
    (xs : List String) (x : String) → IsDistinct xs → has x xs ≡ false → IsDistinct (xs ++ x ∷ [])
IsDistinct-append [] x h new = (refl, tt)
IsDistinct-append (y ∷ xs) x (once, h) new = (
  ground (arith, has-append y xs (x ∷ []), eq_iff y x, eq_iff x y),
  IsDistinct-append xs x h (ground (arith, new)),
)

has-push :
    (w : String) (n : Node) (g : Graph)
    → has w (node_ids (push n g)) ≡ (has w (node_ids g) || w == n.id)
unfolding push
has-push w n g = ground (
  arith,
  map-append_last (λ n. n.id) g.nodes n,
  has-append w (node_ids g) (n.id ∷ []),
  eq_iff w n.id,
)

All-Joins :
    (ids ids' : List String) (es : List GraphEdge)
    → ((w : String) → has w ids ≡ true → has w ids' ≡ true)
    → All (Joins ids) es
    → All (Joins ids') es
All-Joins ids ids' [] h j = tt
All-Joins ids ids' (e ∷ es) h ((s, t), j) =
    ((h e.source s, h e.target t), All-Joins ids ids' es h j)

edges-push : (n : Node) (g : Graph) → (push n g).edges ≡ g.edges
unfolding push
edges-push n g = ground arith

nodes-push_edge : (e : GraphEdge) (g : Graph) → (push_edge e g).nodes ≡ g.nodes
unfolding push_edge
nodes-push_edge e g = ground arith

IsDistinct-push :
    (n : Node) (g : Graph) → IsDistinct (node_ids g) → IsDistinct (node_ids (push n g))
unfolding push
IsDistinct-push n g h = elim (Bool-cases (has n.id (node_ids g))) [
  | inl old ↦ rw old h
  | inr new ↦
      rw (new, map-append_last (λ n. n.id) g.nodes n) (IsDistinct-append (node_ids g) n.id h new)
]

IsDistinct-push_edge :
    (e : GraphEdge) (g : Graph) → IsDistinct (edge_ids g) → IsDistinct (edge_ids (push_edge e g))
unfolding push_edge
IsDistinct-push_edge e g h = elim (Bool-cases (has e.id (edge_ids g))) [
  | inl old ↦ rw old h
  | inr new ↦
      rw (new, map-append_last (λ e. e.id) g.edges e) (IsDistinct-append (edge_ids g) e.id h new)
]

All-push_edge :
    (P : GraphEdge → Type 0) (e : GraphEdge) (g : Graph)
    → P e
    → All P g.edges
    → All P (push_edge e g).edges
unfolding push_edge
All-push_edge P e g p h = elim (Bool-cases (has e.id (edge_ids g))) [
  | inl old ↦ rw old h
  | inr new ↦ rw new (All-append P g.edges (e ∷ []) h (p, tt))
]

push-IsGraph : (n : Node) (g : Graph) → IsGraph g → IsGraph (push n g)
push-IsGraph n g i = record {
  nodes_once = IsDistinct-push n g i.nodes_once;
  edges_once = rw (edges-push n g) i.edges_once;
  joined = rw (edges-push n g) (
      All-Joins (node_ids g) (node_ids (push n g)) g.edges
        (λ w h. ground (arith, has-push w n g, h)) i.joined);
}

push_edge-IsGraph :
    (e : GraphEdge) (g : Graph) → Joins (node_ids g) e → IsGraph g → IsGraph (push_edge e g)
push_edge-IsGraph e g j i = record {
  nodes_once = rw (nodes-push_edge e g) i.nodes_once;
  edges_once = IsDistinct-push_edge e g i.edges_once;
  joined =
      All-push_edge (Joins (node_ids (push_edge e g))) e g (rw (nodes-push_edge e g) j)
        (rw (nodes-push_edge e g) i.joined);
}

-- After a node was pushed it is there, and stays.
here : (n : Node) (g : Graph) → has n.id (node_ids (push n g)) ≡ true
here n g = ground (arith, has-push n.id n g, eq_refl n.id)

stays :
    (w : String) (n : Node) (g : Graph)
    → has w (node_ids g) ≡ true
    → has w (node_ids (push n g)) ≡ true
stays w n g h = ground (arith, has-push w n g, h)

stays_edge :
    (w : String) (e : GraphEdge) (g : Graph)
    → has w (node_ids g) ≡ true
    → has w (node_ids (push_edge e g)) ≡ true
stays_edge w e g h = rw (nodes-push_edge e g) h

module _ (overlay : Option Overlay) where
  add_server-IsGraph :
      (p : Person) (s : ServerNode) (g : Graph) → IsGraph g → IsGraph (add_server overlay p s g)
  unfolding add_server
  add_server-IsGraph p s g i =
      let person : Node = person_node overlay p in
      let server : Node = server_node overlay p s in
      push_edge-IsGraph (person_server_edge overlay p s) (push server (push person g))
        (stays person.id server (push person g) (here person g), here server (push person g))
        (push-IsGraph server (push person g) (push-IsGraph person g i))

  add_resources-IsGraph :
      (p : Person) (s : ServerNode) (b : BundleNode) (rs : List ResourceNode) (g : Graph)
      → has (bundle_node overlay p s b).id (node_ids g) ≡ true
      → IsGraph g
      → IsGraph (add_resources overlay p s b rs g)
  unfolding add_resources
  add_resources-IsGraph p s b [] g h i = i
  add_resources-IsGraph p s b (r ∷ rs) g h i =
      let resource : Node = resource_node overlay p s b r in
      let edge : GraphEdge = bundle_resource_edge overlay p s b r in
      let bundle_id : String = (bundle_node overlay p s b).id in
      let there : has bundle_id (node_ids (push resource g)) ≡ true =
        stays bundle_id resource g h in
      add_resources-IsGraph p s b rs (push_edge edge (push resource g))
        (stays_edge bundle_id edge (push resource g) there)
        (push_edge-IsGraph edge (push resource g) (there, here resource g)
          (push-IsGraph resource g i))

  add_bundle-IsGraph :
      (p : Person) (s : ServerNode) (b : BundleNode) (rs : List ResourceNode) (g : Graph)
      → IsGraph g
      → IsGraph (add_bundle overlay p s b rs g)
  unfolding add_bundle
  add_bundle-IsGraph p s b rs g i =
      let person : Node = person_node overlay p in
      let server : Node = server_node overlay p s in
      let bundle : Node = bundle_node overlay p s b in
      let g1 : Graph = push person g in
      let g2 : Graph = push server g1 in
      let g3 : Graph = push bundle g2 in
      let e1 : GraphEdge = person_server_edge overlay p s in
      let g4 : Graph = push_edge e1 g3 in
      let e2 : GraphEdge = server_bundle_edge overlay p s b in
      let server_there : has server.id (node_ids g3) ≡ true =
        stays server.id bundle g2 (here server g1) in
      let bundle_there : has bundle.id (node_ids g4) ≡ true =
        stays_edge bundle.id e1 g3 (here bundle g2) in
      add_resources-IsGraph p s b rs (push_edge e2 g4) (stays_edge bundle.id e2 g4 bundle_there) (
        push_edge-IsGraph e2 g4 (stays_edge server.id e1 g3 server_there, bundle_there)
          (push_edge-IsGraph e1 g3
            (stays person.id bundle g2 (stays person.id server g1 (here person g)), server_there)
            (push-IsGraph bundle g2 (push-IsGraph server g1 (push-IsGraph person g i)))))

  server_step-IsGraph :
      (p : Option Person) (s : Option ServerNode) (g : Graph)
      → IsGraph g
      → IsGraph (server_step overlay p s g)
  server_step-IsGraph (some p) (some s) g i = add_server-IsGraph p s g i
  server_step-IsGraph (some p) none g i = i
  server_step-IsGraph none s g i = i

  bundle_step-IsGraph :
      (by_bundle : Dict (List ResourceNode)) (p : Option Person) (s : Option ServerNode)
      (b : Option BundleNode)
      → (g : Graph) → IsGraph g
      → IsGraph (bundle_step overlay by_bundle p s b g)
  bundle_step-IsGraph d (some p) (some s) (some b) g i =
      add_bundle-IsGraph p s b (or_else (lookup b.id d) []) g i
  bundle_step-IsGraph d (some p) (some s) none g i = i
  bundle_step-IsGraph d (some p) none b g i = i
  bundle_step-IsGraph d none s b g i = i

  pair_step-IsGraph :
      (x : Index) (by_bundle : Dict (List ResourceNode)) (pair : Option (String × String))
      (to : String)
      → (g : Graph) → IsGraph g
      → IsGraph (pair_step overlay x by_bundle pair to g)
  pair_step-IsGraph x d none to g i = i
  pair_step-IsGraph x d (some (u, v)) to g i =
      bundle_step-IsGraph d (lookup u x.people) (lookup v x.servers) (lookup to x.bundles) g i

  add_servers-IsGraph :
      (x : Index) (es : List Edge) (g : Graph) → IsGraph g → IsGraph (add_servers overlay x es g)
  unfolding add_servers
  add_servers-IsGraph x [] g i = i
  add_servers-IsGraph x (e ∷ es) g i =
      add_servers-IsGraph x es _
        (server_step-IsGraph (lookup e.from x.people) (lookup e.to x.servers) g i)

  add_bundles-IsGraph :
      (x : Index) (by_bundle : Dict (List ResourceNode)) (es : List Edge) (g : Graph)
      → IsGraph g
      → IsGraph (add_bundles overlay x by_bundle es g)
  unfolding add_bundles
  add_bundles-IsGraph x d [] g i = i
  add_bundles-IsGraph x d (e ∷ es) g i =
      add_bundles-IsGraph x d es _ (pair_step-IsGraph x d (split_user_server e.from) e.to g i)

  -- Whatever the server sends, every edge of the graph joins two of its nodes, and no node and no
  -- edge stands in it twice.
  pub build_graph-IsGraph : (t : Topology) → IsGraph (build_graph overlay t)
  unfolding build_graph
  build_graph-IsGraph t = add_bundles-IsGraph (index_of t) _ t.user_bundle _ (
      add_servers-IsGraph (index_of t) t.person_server _
        (record { nodes_once = tt; edges_once = tt; joined = tt }))
