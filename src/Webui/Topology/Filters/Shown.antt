-- ===== src/Webui/Topology/Filters/Shown.antt =====
-- What the filters show: the part of the graph that is linked to a selected item, and all of it if
-- no node is selected.
use pro_identity_access.Base.{
  String, Bool, true, false, ◌&&◌, ◌≡◌, ◌≢◌, ◌↔◌, refl, ◌∙◌, ◌⊎◌, inl, inr, List, [], ◌∷◌, map, has,
  keep, All, Bool-cases, eq_iff, eq_refl, arith,
}
use pro_identity_access.Webui.Topology.{Node, GraphEdge, Graph, node_ids}
use pro_identity_access.Webui.Topology.Built.{IsDistinct, Joins, IsGraph}
use pro_identity_access.Webui.Topology.Search.Correct.{Reaches, seed, reachable_from_seeds_lem}
use pro_identity_access.Webui.Topology.Filters.{
  Filters, is_selected, filter_seeds, has_filters, links, reached, restrict, shown_graph,
}

-- `reached` is the set of the nodes that are linked to the seeds.
reached_lem :
    (seeds : List String) (g : Graph) (v : String)
    → (has v (reached seeds g) ≡ true) ↔ Reaches seeds (links g) v
unfolding reached
reached_lem seeds g v =
    let (found, e, correct) = reachable_from_seeds_lem seeds (links g) in rw e (correct v)

-- Keeping what is in a set keeps the ids that are in it.
has-keep {ℓ} :
    {A : Type ℓ} (f : A → String) (w : String) (ids : List String) (xs : List A)
    → has w (map f (keep (λ x. has (f x) ids) xs)) ≡ (has w (map f xs) && has w ids)
has-keep f w ids [] = refl
has-keep f w ids (x ∷ xs) = elim (Bool-cases (has (f x) ids)) [
  | inl e ↦ rw e (ground (arith, has-keep f w ids xs, eq_iff w (f x), e))
  | inr e ↦ rw e (ground (arith, has-keep f w ids xs, eq_iff w (f x), e))
]

has-keep_other {ℓ} :
    {A : Type ℓ} (f : A → String) (p : A → Bool) (w : String) (xs : List A)
    → has w (map f xs) ≡ false
    → has w (map f (keep p xs)) ≡ false
has-keep_other f p w [] h = refl
has-keep_other f p w (x ∷ xs) h = elim (Bool-cases (p x)) [
  | inl e ↦ rw e (ground (arith, has-keep_other f p w xs, h))
  | inr e ↦ rw e (has-keep_other f p w xs (ground (arith, h)))
]

IsDistinct-keep {ℓ} :
    {A : Type ℓ} (f : A → String) (p : A → Bool) (xs : List A)
    → IsDistinct (map f xs)
    → IsDistinct (map f (keep p xs))
IsDistinct-keep f p [] h = tt
IsDistinct-keep f p (x ∷ xs) (once, h) = elim (Bool-cases (p x)) [
  | inl e ↦ rw e (ground (arith, has-keep_other f p (f x) xs, once), IsDistinct-keep f p xs h)
  | inr e ↦ rw e (IsDistinct-keep f p xs h)
]

module _ (ids : List String) where
  joined-keep :
      (nodes : List String) (ns : List Node) (es : List GraphEdge)
      → nodes ≡ map (λ n. n.id) ns
      → All (Joins nodes) es
      → All
          (Joins (map (λ n. n.id) (keep (λ n. has n.id ids) ns)))
          (keep (λ e. has e.source ids && has e.target ids) es)
  joined-keep nodes ns [] same h = tt
  joined-keep nodes ns (e ∷ es) same ((s, t), h) =
      elim (Bool-cases (has e.source ids && has e.target ids)) [
        | inl kept ↦ rw kept (
          (
            ground (arith, has-keep (λ n. n.id) e.source ids ns, kept, s, same),
            ground (arith, has-keep (λ n. n.id) e.target ids ns, kept, t, same),
          ),
          joined-keep nodes ns es same h,
        )
        | inr gone ↦ rw gone (joined-keep nodes ns es same h)
      ]

  restrict-IsGraph : (g : Graph) → IsGraph g → IsGraph (restrict ids g)
  unfolding restrict
  restrict-IsGraph g i = record {
    nodes_once = IsDistinct-keep (λ n. n.id) (λ n. has n.id ids) g.nodes i.nodes_once;
    edges_once =
        IsDistinct-keep (λ e. e.id) (λ e. has e.source ids && has e.target ids) g.edges
          i.edges_once;
    joined = joined-keep (node_ids g) g.nodes g.edges refl i.joined;
  }

-- Filtering leaves a graph: every edge that is shown joins two nodes that are shown, and none of
-- these stands twice.
shown_graph-IsGraph : (f : Filters) (g : Graph) → IsGraph g → IsGraph (shown_graph f g)
unfolding shown_graph
shown_graph-IsGraph f g i = elim (Bool-cases (has_filters f g)) [
  | inl e ↦ rw e (restrict-IsGraph (reached (filter_seeds f g) g) g i)
  | inr e ↦ rw e i
]

-- What is shown are the nodes of the graph that are linked to a selected one, in any number of steps
-- along edges of either direction; all of them if no node of the graph is selected.
pub shown_graph_lem :
    (f : Filters) (g : Graph) (w : String)
    → (has w (node_ids (shown_graph f g)) ≡ true) ↔ (
        (has w (node_ids g) ≡ true)
        × ((has_filters f g ≡ false) ⊎ Reaches (filter_seeds f g) (links g) w))
unfolding shown_graph restrict
shown_graph_lem f g w = elim (Bool-cases (has_filters f g)) [
  | inl e ↦ rw e (
    (λ h. (
      ground (arith, has-keep (λ n. n.id) w seen g.nodes, h),
      inr (
          (reached_lem (filter_seeds f g) g w).0
            (ground (arith, has-keep (λ n. n.id) w seen g.nodes, h))),
    )),
    (λ (there, why). elim why [
      | inl off ↦ cc
      | inr r ↦
          has-keep (λ n. n.id) w seen g.nodes
          ∙ ground (arith, (reached_lem (filter_seeds f g) g w).1 r, there)
    ]),
  )
  | inr e ↦ rw e ((λ h. (h, inl refl)), (λ (there, _). there))
]
  where
    seen : List String
    seen = reached (filter_seeds f g) g

first_seed :
    (f : Filters) (ns : List Node)
    → All (λ n. is_selected f n ≡ false) ns
    → keep (is_selected f) ns ≡ []
first_seed f [] h = refl
first_seed f (n ∷ ns) (off, h) = rw off (first_seed f ns h)

-- If every selected item is in no node of the graph, the whole graph is shown, as if nothing were
-- selected.
pub shown_graph_unmatched :
    (f : Filters) (g : Graph)
    → All (λ n. is_selected f n ≡ false) g.nodes
    → (has_filters f g ≡ false) × (shown_graph f g ≡ g)
unfolding shown_graph has_filters
shown_graph_unmatched f g h = rw (first_seed f g.nodes h) (refl, refl)

some_seed :
    (f : Filters) (ns : List Node)
    → (keep (is_selected f) ns ≡ [])
      ⊎ ((w : String) × (has w (map (λ n. n.id) (keep (is_selected f) ns)) ≡ true)
          × (has w (map (λ n. n.id) ns) ≡ true))
some_seed f [] = inl refl
some_seed f (n ∷ ns) = elim (Bool-cases (is_selected f n)) [
  | inl e ↦ rw e (inr (n.id, ground (arith, eq_refl n.id), ground (arith, eq_refl n.id)))
  | inr e ↦ rw e (elim (some_seed f ns) [
    | inl none_there ↦ inl none_there
    | inr (w, s, t) ↦ inr (w, s, ground (arith, t))
  ])
]

-- While a node is selected, some node is shown.
shown_graph_nonempty :
    (f : Filters) (g : Graph) → has_filters f g ≡ true → (shown_graph f g).nodes ≢ []
shown_graph_nonempty f g h nothing = elim (some_seed f g.nodes) [
  | inl off ↦ let closed : has_filters f g ≡ false = unfold has_filters in rw off refl in cc
  | inr (w, s, t) ↦
      let shown : has w (node_ids (shown_graph f g)) ≡ true =
        (shown_graph_lem f g w).1 (t, inr (seed {v = w} (unfold filter_seeds in s))) in
      let absent : has w (node_ids (shown_graph f g)) ≡ false = rw nothing refl in cc
]
