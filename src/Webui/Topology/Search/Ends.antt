-- ===== src/Webui/Topology/Search/Ends.antt =====
-- The search ends: what a round adds, and how much can be left to do.
use pro_identity_access.Base.{
  has-append, ℕ, zero, suc, ◌+◌, ◌≤◌, ◌<◌, String, true, false, not, ◌≡◌, refl, ap, inl, inr, ◌&&◌,
  ◌||◌, some, List, [], ◌∷◌, ◌++◌, Dict, has, ◌==◌, eq_iff, eq_refl, Bool-cases, length, arith,
  length-append, if◌then◌else◌,
}
use native.Mathlib.Nat.{le_trans}
use pro_identity_access.Webui.Topology.Search.{neighbours, visit, visit_all, search_loop}

-- How many of the nodes of a list have not been seen.
unfoldable pub unseen : List String → List String → ℕ
unseen [] seen = 0
unseen (x ∷ xs) seen = (if has x seen then 0 else 1) + unseen xs seen

unseen_mono :
    (nodes seen : List String) (v : String) → unseen nodes (seen ++ v ∷ []) ≤ unseen nodes seen
unfolding unseen
unseen_mono [] seen v = omega arith
unseen_mono (x ∷ xs) seen v = ground (arith, unseen_mono xs seen v, has-append x seen (v ∷ []))

unseen-append :
    (nodes seen : List String) (v : String)
    → has v nodes ≡ true
    → has v seen ≡ false
    → suc (unseen nodes (seen ++ v ∷ [])) ≤ unseen nodes seen
unfolding unseen
unseen-append [] seen v here new = cc
unseen-append (x ∷ xs) seen v here new = elim (Bool-cases (v == x)) [
  | inl e ↦
      let same : v ≡ x = (eq_iff v x).0 e in
      ground (
        arith,
        same,
        unseen_mono xs seen v,
        has-append x seen (v ∷ []),
        eq_refl x,
        has-append v seen (v ∷ []),
        eq_refl v,
      )
  | inr e ↦
      ground (arith, e, unseen-append xs seen v, has-append x seen (v ∷ []), eq_iff v x, eq_iff x v)
]

visit_old :
    (v : String) (seen queue : List String)
    → has v seen ≡ true
    → visit v (seen, queue) ≡ (seen, queue)
unfolding visit
visit_old v seen queue h = rw h refl

visit_new :
    (v : String) (seen queue : List String)
    → has v seen ≡ false
    → visit v (seen, queue) ≡ (seen ++ v ∷ [], queue ++ v ∷ [])
unfolding visit
visit_new v seen queue h = rw h refl

visit_all_old :
    (v : String) (vs seen queue : List String)
    → has v seen ≡ true
    → visit_all (v ∷ vs) (seen, queue) ≡ visit_all vs (seen, queue)
unfolding visit_all
visit_all_old v vs seen queue h = ap (λ s. visit_all vs s) (visit_old v seen queue h)

visit_all_new :
    (v : String) (vs seen queue : List String)
    → has v seen ≡ false
    → visit_all (v ∷ vs) (seen, queue) ≡ visit_all vs (seen ++ v ∷ [], queue ++ v ∷ [])
unfolding visit_all
visit_all_new v vs seen queue h = ap (λ s. visit_all vs s) (visit_new v seen queue h)

pub has-visit_all_seen :
    (w : String) (vs seen queue : List String)
    → has w (visit_all vs (seen, queue)).0 ≡ (has w seen || has w vs)
has-visit_all_seen w [] seen queue = unfold visit_all in ground arith
has-visit_all_seen w (v ∷ vs) seen queue = elim (Bool-cases (has v seen)) [
  | inl e ↦
      rw (visit_all_old v vs seen queue e)
        (ground (arith, has-visit_all_seen w vs seen queue, eq_iff w v))
  | inr e ↦ rw (visit_all_new v vs seen queue e) (
      ground (
        arith,
        has-visit_all_seen w vs (seen ++ v ∷ []) (queue ++ v ∷ []),
        has-append w seen (v ∷ []),
      ))
]

pub has-visit_all_queue :
    (w : String) (vs seen queue : List String)
    → has w (visit_all vs (seen, queue)).1 ≡ (has w queue || (has w vs && not (has w seen)))
has-visit_all_queue w [] seen queue = unfold visit_all in ground arith
has-visit_all_queue w (v ∷ vs) seen queue = elim (Bool-cases (has v seen)) [
  | inl e ↦
      rw (visit_all_old v vs seen queue e)
        (ground (arith, has-visit_all_queue w vs seen queue, eq_iff w v))
  | inr e ↦ rw (visit_all_new v vs seen queue e) (
      ground (
        arith,
        has-visit_all_queue w vs (seen ++ v ∷ []) (queue ++ v ∷ []),
        has-append w seen (v ∷ []),
        has-append w queue (v ∷ []),
        eq_iff w v,
      ))
]

module _ (nodes : List String) where
  -- What may be left to do: the nodes in the queue, and those that can still come there.
  unfoldable pub left : List String × List String → ℕ
  left (seen, queue) = length queue + unseen nodes seen

  pub left-visit_all :
      (vs seen queue : List String)
      → ((v : String) → has v vs ≡ true → has v nodes ≡ true)
      → left (visit_all vs (seen, queue)) ≤ left (seen, queue)
  unfolding visit_all
  left-visit_all [] seen queue h = omega arith
  left-visit_all (v ∷ vs) seen queue h = elim (Bool-cases (has v seen)) [
    | inl e ↦
        rw (visit_old v seen queue e)
          (left-visit_all vs seen queue (λ w hw. h w (ground (arith, hw))))
    | inr e ↦ rw (visit_new v seen queue e) (
        le_trans
          (left-visit_all vs (seen ++ v ∷ []) (queue ++ v ∷ []) (λ w hw. h w (ground (arith, hw))))
          (unfold left in
            omega (
              arith,
              length-append queue (v ∷ []),
              unseen-append nodes seen v (h v (ground (arith, eq_refl v))) e,
            )))
  ]

  popped :
      (v : String) (seen queue : List String) → suc (left (seen, queue)) ≤ left (seen, v ∷ queue)
  unfolding left
  popped v seen queue = omega arith

  -- With fuel for all that is left the loop ends.
  pub search_loop_total :
      (fuel : ℕ) (adj : Dict (List String)) (seen queue : List String)
      → ((u v : String) → has v (neighbours adj u) ≡ true → has v nodes ≡ true)
      → left (seen, queue) < fuel
      → (found : List String) × (search_loop fuel adj (seen, queue) ≡ some found)
  unfolding search_loop
  search_loop_total zero adj seen queue h enough = absurd (omega arith)
  search_loop_total (suc fuel) adj seen [] h enough = (seen, refl)
  search_loop_total (suc fuel) adj seen (v ∷ queue) h enough =
      let next : List String × List String = visit_all (neighbours adj v) (seen, queue) in
      search_loop_total fuel adj next.0 next.1 h
        (omega (arith, left-visit_all (neighbours adj v) seen queue (h v), popped v seen queue))
