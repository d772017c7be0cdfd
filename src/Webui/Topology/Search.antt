-- ===== src/Webui/Topology/Search.antt =====
-- server/webui/src/pages/Topology.tsx: `reachableFromSeeds`, the nodes that are linked to some given
-- ones. A `Set` is the list of its members in the order in which they came.
pub mod Adjacent
pub mod Ends
pub mod Correct
use pro_identity_access.Base.{
  ℕ, zero, suc, ◌+◌, String, Bool, true, false, Option, none, some, List, [], ◌∷◌, ◌++◌, Dict,
  lookup, insert, has, or_else, is_some, length, if◌then◌else◌,
}

-- An edge, as far as the search reads it.
pub record Link : Type 0 where
  pub source : String
  pub target : String

unfoldable pub set_add : String → List String → List String
set_add x xs = if has x xs then xs else xs ++ x ∷ []

-- `if (!adj.has(k)) adj.set(k, new Set())`
unfoldable pub ensure : String → Dict (List String) → Dict (List String)
ensure k adj = if is_some (lookup k adj) then adj else insert k [] adj

-- `adj.get(a)!.add(b)`
unfoldable pub add_neighbour : String → String → Dict (List String) → Dict (List String)
add_neighbour a b adj = insert a (set_add b (or_else (lookup a adj) [])) adj

unfoldable pub add_link : Link → Dict (List String) → Dict (List String)
add_link e adj =
    add_neighbour e.target e.source
      (add_neighbour e.source e.target (ensure e.target (ensure e.source adj)))

unfoldable pub adjacency : List Link → Dict (List String) → Dict (List String)
adjacency [] adj = adj
adjacency (e ∷ es) adj = adjacency es (add_link e adj)

unfoldable pub neighbours : Dict (List String) → String → List String
neighbours adj v = or_else (lookup v adj) []

-- `if (!seen.has(next)) { seen.add(next); queue.push(next) }`, on `seen` and `queue`
unfoldable pub visit : String → List String × List String → List String × List String
visit v (seen, queue) = if has v seen then (seen, queue) else (seen ++ v ∷ [], queue ++ v ∷ [])

unfoldable pub visit_all : List String → List String × List String → List String × List String
visit_all [] s = s
visit_all (v ∷ vs) s = visit_all vs (visit v s)

-- The loop, on fuel: `none` means that the fuel ran out.
unfoldable pub search_loop :
    (fuel : ℕ) → Dict (List String) → List String × List String → Option (List String)
search_loop zero adj s = none
search_loop (suc fuel) adj (seen, []) = some seen
search_loop (suc fuel) adj (seen, v ∷ queue) =
    search_loop fuel adj (visit_all (neighbours adj v) (seen, queue))

abbrev pub ends : List Link → List String
ends [] = []
ends (e ∷ es) = e.source ∷ e.target ∷ ends es

-- Each round takes a node off the queue, and each node comes there once.
unfoldable pub reachable_from_seeds : List String → List Link → Option (List String)
reachable_from_seeds seeds links =
    search_loop (suc (length (seeds ++ ends links))) (adjacency links []) (visit_all seeds ([], []))
