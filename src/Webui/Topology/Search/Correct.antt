-- ===== src/Webui/Topology/Search/Correct.antt =====
-- The search ends, and finds exactly the nodes that are reached from the seeds.
use pro_identity_access.Base.{
  has-append, ℕ, zero, suc, ◌≤◌, ◌<◌, String, true, not, ◌≡◌, ◌↔◌, sym, ◌∙◌, ◌⊎◌, inl, inr, ◌&&◌,
  ◌||◌, some, List, [], ◌∷◌, ◌++◌, Dict, has, eq_iff, eq_refl, Bool-cases, length, arith,
}
use pro_identity_access.Webui.Topology.Search.{
  Link, adjacency, neighbours, visit_all, search_loop, ends, reachable_from_seeds,
}
use pro_identity_access.Webui.Topology.Search.Adjacent.{linked, neighbours-adjacency}
use pro_identity_access.Webui.Topology.Search.Ends.{
  has-visit_all_seen, has-visit_all_queue, left, search_loop_total, left-visit_all, unseen,
}

-- A node is reached: it is a seed, or linked to a node that is reached.
pub data Reaches (seeds : List String) (links : List Link) : String → Type 0 where
  seed : {v : String} → has v seeds ≡ true → Reaches seeds links v
  step : {u v : String} → Reaches seeds links u → linked links u v ≡ true → Reaches seeds links v

-- What holds of the nodes seen and the queue before each round.
record IsSearch (seeds : List String) (links : List Link) (seen queue : List String) : Type 0 where
  sound : (v : String) → has v seen ≡ true → Reaches seeds links v
  queued : (v : String) → has v queue ≡ true → has v seen ≡ true
  closed :
      (u v : String)
      → has u seen ≡ true
      → linked links u v ≡ true
      → (has u queue ≡ true) ⊎ (has v seen ≡ true)
  started : (v : String) → has v seeds ≡ true → has v seen ≡ true

module _ (seeds : List String) (links : List Link) where
  abbrev adj : Dict (List String)
  adj = adjacency links []

  start-IsSearch : let s = visit_all seeds ([], []) in IsSearch seeds links s.0 s.1
  start-IsSearch = record {
    sound = λ v h. seed (sym (has-visit_all_seen v seeds [] []) ∙ h);
    queued = λ v h.
        ground (arith, has-visit_all_seen v seeds [] [], has-visit_all_queue v seeds [] [], h);
    closed = λ u v h l.
        inl
          (ground (arith, has-visit_all_seen u seeds [] [], has-visit_all_queue u seeds [] [], h));
    started = λ v h. has-visit_all_seen v seeds [] [] ∙ h;
  }

  round-IsSearch :
      (u : String) (seen queue : List String)
      → IsSearch seeds links seen (u ∷ queue)
      → let s = visit_all (neighbours adj u) (seen, queue) in IsSearch seeds links s.0 s.1
  round-IsSearch u seen queue i = record {
    sound = λ v h. elim (Bool-cases (has v seen)) [
      | inl old ↦ i.sound v old
      | inr new ↦
          step (i.sound u popped_seen)
            (sym (neighbours-adjacency u v links) ∙ ground (arith, seen_after v, h, new))
    ];
    queued = λ v h. ground (arith, seen_after v, queue_after v, h, i.queued v);
    closed = λ w v h l. elim (Bool-cases (has w seen)) [
      | inl old ↦ ground (
        arith,
        seen_after v,
        queue_after w,
        i.closed w v old l,
        eq_iff w u,
        neighbours-adjacency u v links,
        l,
      )
      | inr new ↦ inl (ground (arith, seen_after w, queue_after w, h, new))
    ];
    started = λ v h. ground (arith, seen_after v, i.started v h);
  }
    where
      popped_seen : has u seen ≡ true
      popped_seen = i.queued u (ground (arith, eq_refl u))

      seen_after :
          (v : String)
          → has v (visit_all (neighbours adj u) (seen, queue)).0
            ≡ (has v seen || has v (neighbours adj u))
      seen_after v = has-visit_all_seen v (neighbours adj u) seen queue

      queue_after :
          (v : String)
          → has v (visit_all (neighbours adj u) (seen, queue)).1
            ≡ (has v queue || (has v (neighbours adj u) && not (has v seen)))
      queue_after v = has-visit_all_queue v (neighbours adj u) seen queue

  -- Without a queue, the nodes seen are those that are reached.
  finished :
      (seen : List String)
      → IsSearch seeds links seen []
      → (v : String) → (has v seen ≡ true) ↔ Reaches seeds links v
  finished seen i v = (i.sound v, found v)
    where
      found : (v : String) → Reaches seeds links v → has v seen ≡ true
      found v (seed h) = i.started v h
      found v (step {u} r l) = ground (arith, i.closed u v (found u r) l)

  search_loop_correct :
      (fuel : ℕ) (seen queue found : List String)
      → IsSearch seeds links seen queue
      → search_loop fuel adj (seen, queue) ≡ some found
      → (v : String) → (has v found ≡ true) ↔ Reaches seeds links v
  unfolding search_loop
  search_loop_correct zero seen queue found i e v = cc
  search_loop_correct (suc fuel) seen [] found i e v =
      let same : seen ≡ found = cc in rw (← same) (finished seen i v)
  search_loop_correct (suc fuel) seen (u ∷ queue) found i e v =
      let next : List String × List String = visit_all (neighbours adj u) (seen, queue) in
      search_loop_correct fuel next.0 next.1 found (round-IsSearch u seen queue i) e v

  seeds_in_nodes : (v : String) → has v seeds ≡ true → has v (seeds ++ ends links) ≡ true
  seeds_in_nodes v h = ground (arith, has-append v seeds (ends links), h)

  unseen-le-length : (nodes seen : List String) → unseen nodes seen ≤ length nodes
  unfolding unseen
  unseen-le-length [] seen = omega arith
  unseen-le-length (x ∷ nodes) seen = ground (arith, unseen-le-length nodes seen)

linked-ends :
    (links : List Link) (u v : String) → linked links u v ≡ true → has v (ends links) ≡ true
linked-ends [] u v h = h
linked-ends (e ∷ links) u v h = ground (
  arith,
  linked-ends links u v,
  eq_iff e.source v,
  eq_iff e.target v,
  eq_iff v e.source,
  eq_iff v e.target,
)

left_start :
    (seeds : List String) (links : List Link)
    → left (seeds ++ ends links) ([], []) ≤ length (seeds ++ ends links)
unfolding left
left_start seeds links = omega (arith, unseen-le-length seeds links (seeds ++ ends links) [])

enough :
    (seeds : List String) (links : List Link)
    → left (seeds ++ ends links) (visit_all seeds ([], [])) < suc (length (seeds ++ ends links))
enough seeds links = omega (
  arith,
  left-visit_all (seeds ++ ends links) seeds [] [] (seeds_in_nodes seeds links),
  left_start seeds links,
)

-- The search from some seeds ends, and the nodes that it answers are exactly those that are reached
-- from the seeds along the links, whichever way these point.
pub reachable_from_seeds_lem :
    (seeds : List String) (links : List Link)
    → (found : List String) × (reachable_from_seeds seeds links ≡ some found)
      × ((v : String) → (has v found ≡ true) ↔ Reaches seeds links v)
unfolding reachable_from_seeds
reachable_from_seeds_lem seeds links =
    let nodes : List String = seeds ++ ends links in
    let s : List String × List String = visit_all seeds ([], []) in
    let (found, e) =
      search_loop_total nodes (suc (length nodes)) (adjacency links []) s.0 s.1
        (λ u v h. ground (
          arith,
          has-append v seeds (ends links),
          linked-ends links u v (sym (neighbours-adjacency u v links) ∙ h),
        ))
        (enough seeds links) in
    (
      found,
      e,
      search_loop_correct seeds links (suc (length nodes)) s.0 s.1 found
          (start-IsSearch seeds links) e,
    )
