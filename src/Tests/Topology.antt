-- ===== src/Tests/Topology.antt =====
-- The topology page, with one person who reaches a host through a bundle on a server.
use pro_identity_access.Base.{
  String, true, false, ◌≡◌, ◌↔◌, ◌⊎◌, refl, none, some, List, [], ◌∷◌, has, lookup, insert,
}
use pro_identity_access.Webui.Types.{host}
use pro_identity_access.Webui.Rows.{Topology}
use pro_identity_access.Webui.Topology.{
  Graph, build_graph, node_ids, person, server, bare, split_user_server,
}
use pro_identity_access.Webui.Topology.Search.{
  Link, reachable_from_seeds, search_loop, visit_all, visit, neighbours, adjacency, add_link,
  add_neighbour, ensure, set_add,
}
use pro_identity_access.Webui.Topology.Search.Correct.{Reaches, reachable_from_seeds_lem}
use pro_identity_access.Webui.Topology.Built.{IsGraph, build_graph-IsGraph}
use pro_identity_access.Webui.Topology.Pairs.{split_user_server-append}
use pro_identity_access.Webui.Topology.Filters.{
  Filters, empty_filters, add_filter, is_selected, has_filters, selected, select, filter_seeds,
  links, shown_graph,
}
use pro_identity_access.Webui.Topology.Filters.Shown.{shown_graph_lem, shown_graph_unmatched}

abbrev office : Topology
office = record {
  people =
      record { id = "ann"; username = "Ann"; is_admin = false }
      ∷ record { id = "bob"; username = "Bob"; is_admin = false }
      ∷ [];
  bundles = record { id = "b1"; name = "Files" } ∷ [];
  resources =
      record { id = "r1"; name = "NAS"; ip_address = "10.0.0.5"; type = host; mask = none } ∷ [];
  servers = record { id = "s1"; name = "Paris"; subnet = "10.8.0.0/24" } ∷ [];
  person_server = record { from = "ann"; to = "s1" } ∷ [];
  server_bundle = some (record { from = "ann:s1"; to = "b1" } ∷ []);
  server_allowed_bundle = none;
  user_bundle = [];
  bundle_resource = record { from = "b1"; to = "r1" } ∷ [];
}

abbrev graph : Graph
graph = build_graph none office

-- A graph of two nodes, as the browser would hold it.
abbrev two : Graph
two = record {
  nodes =
      record { id = "person:ann"; kind = person; source_id = "ann"; label = "Ann"; sub = none }
      ∷ record {
        id = "server:ann:s1:s1";
        kind = server;
        source_id = "s1";
        label = "Paris";
        sub = none;
      }
      ∷ [];
  edges =
      record { id = "e"; source = "person:ann"; target = "server:ann:s1:s1"; style = bare } ∷ [];
}

abbrev only : String → Filters
only id = add_filter person id empty_filters

build_graph-IsGraph_example : IsGraph (build_graph none office)
build_graph-IsGraph_example = build_graph-IsGraph none office

abbrev chain : List Link
chain =
    record { source = "a"; target = "b" }
    ∷ record { source = "c"; target = "b" }
    ∷ record { source = "d"; target = "e" }
    ∷ []

reached_ids : reachable_from_seeds ("a" ∷ []) chain ≡ some ("a" ∷ "b" ∷ "c" ∷ [])
unfolding reachable_from_seeds search_loop visit_all visit neighbours lookup adjacency add_link
    add_neighbour insert ensure set_add
reached_ids = refl

reachable_from_seeds_lem_example :
    (found : List String) × (reachable_from_seeds ("a" ∷ []) chain ≡ some found)
    × ((v : String) → (has v found ≡ true) ↔ Reaches ("a" ∷ []) chain v)
reachable_from_seeds_lem_example = reachable_from_seeds_lem ("a" ∷ []) chain

split_user_server-append_example : split_user_server "ann:s1" ≡ some ("ann", "s1")
split_user_server-append_example =
    split_user_server-append "ann" "s1" (refl, (refl, (refl, tt))) refl refl

shown_graph_lem_example :
    (has "server:ann:s1:s1" (node_ids (shown_graph (only "ann") graph)) ≡ true) ↔ (
      (has "server:ann:s1:s1" (node_ids graph) ≡ true)
      × ((has_filters (only "ann") graph ≡ false)
          ⊎ Reaches (filter_seeds (only "ann") graph) (links graph) "server:ann:s1:s1"))
shown_graph_lem_example = shown_graph_lem (only "ann") graph "server:ann:s1:s1"

-- The filter is for somebody who has left.
shown_graph_unmatched_example :
    (has_filters (only "eve") two ≡ false) × (shown_graph (only "eve") two ≡ two)
unfolding add_filter is_selected selected select
shown_graph_unmatched_example = shown_graph_unmatched (only "eve") two (refl, (refl, tt))
