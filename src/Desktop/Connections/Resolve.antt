-- ===== src/Desktop/Connections/Resolve.antt =====
-- Which tunnel the row of a server shows.
use pro_identity_access.Base.{
  String, Bool, true, false, ◌≡◌, refl, sym, ap, ◌∙◌, ◌⊎◌, inl, inr, none, some, Option, List, [],
  ◌∷◌, keep, find, first, has, truthy, or_some, Bool-cases, ◌==◌, eq_iff, eq_refl, arith,
  if◌then◌else◌,
}
use pro_identity_access.Desktop.Types.{TunnelInfo, ServerStatus}
use pro_identity_access.Desktop.Connections.{
  single, same_name, free_active, free_managed, guess, by_id, resolve,
}
use pro_identity_access.Desktop.Connections.Rows.{ids}

find_lem :
    (p : TunnelInfo → Bool) (ts : List TunnelInfo) (t : TunnelInfo)
    → find p ts ≡ some t
    → (p t ≡ true) × (has t.id (ids ts) ≡ true)
find_lem p [] t h = cc
find_lem p (x ∷ ts) t h = elim (Bool-cases (p x)) [
  | inl e ↦
      let same : x ≡ t = ground (arith, e) in
      (ap p (sym same) ∙ e, rw same (ground (arith, eq_refl t.id)))
  | inr e ↦ let (q, m) = find_lem p ts t (rw e at h) in (q, ground (arith, m))
]

first-keep : (p : TunnelInfo → Bool) (ts : List TunnelInfo) → first (keep p ts) ≡ find p ts
first-keep p [] = refl
first-keep p (x ∷ ts) = ground (arith, first-keep p ts)

first-single : (xs : List TunnelInfo) (t : TunnelInfo) → single xs ≡ some t → first xs ≡ some t
first-single [] t h = cc
first-single (x ∷ []) t h = h
first-single (x ∷ y ∷ xs) t h = cc

single_lem :
    (p : TunnelInfo → Bool) (ts : List TunnelInfo) (t : TunnelInfo)
    → single (keep p ts) ≡ some t
    → (p t ≡ true) × (has t.id (ids ts) ≡ true)
single_lem p ts t h = find_lem p ts t (sym (first-keep p ts) ∙ first-single (keep p ts) t h)

or_some_cases :
    (a b : Option TunnelInfo) (t : TunnelInfo) → or_some a b ≡ some t → (a ≡ some t) ⊎ (b ≡ some t)
or_some_cases none b t h = inr h
or_some_cases (some x) b t h = inl h

by_id_lem :
    (id : Option String) (ts : List TunnelInfo) (t : TunnelInfo)
    → by_id id ts ≡ some t
    → (id ≡ some t.id) × (has t.id (ids ts) ≡ true)
by_id_lem none ts t h = cc
by_id_lem (some id) ts t h = elim (Bool-cases (truthy id)) [
  | inl e ↦
      let (q, m) = find_lem (λ t. t.id == id) ts t (rw e at h) in
      (ap some (sym ((eq_iff t.id id).0 q)), m)
  | inr e ↦ absurd (clash (rw e at h))
]
  where
    clash : none ≡ some t → ⊥
    clash k = cc

module _ (normalize : String → String) (ss : ServerStatus) (tunnels : List TunnelInfo)
    (used : List String) where
  abbrev IsFree : TunnelInfo → Type 0
  IsFree t = (has t.id used ≡ false) × (has t.id (ids tunnels) ≡ true)

  abbrev by_name : Option TunnelInfo
  by_name = find (same_name normalize ss used) tunnels

  abbrev only_active : Option TunnelInfo
  only_active = single (keep (free_active used) tunnels)

  abbrev only_managed : Option TunnelInfo
  only_managed = single (keep (free_managed used) tunnels)

  guess-IsFree : (t : TunnelInfo) → guess normalize ss tunnels used ≡ some t → IsFree t
  guess-IsFree t h = elim (or_some_cases by_name (or_some only_active only_managed) t h) [
    | inl k ↦
        let (p, m) = find_lem (same_name normalize ss used) tunnels t k in (ground (arith, p), m)
    | inr k ↦ elim (or_some_cases only_active only_managed t k) [
      | inl l ↦ let (p, m) = single_lem (free_active used) tunnels t l in (ground (arith, p), m)
      | inr l ↦ let (p, m) = single_lem (free_managed used) tunnels t l in (ground (arith, p), m)
    ]
  ]

  -- The row of a server shows a tunnel of the list, which is the tunnel that the service names for
  -- it, or one that is guessed: then the server is connected, and no row before shows that tunnel.
  pub resolve_lem :
      (t : TunnelInfo)
      → resolve normalize ss tunnels used ≡ some t
      → (has t.id (ids tunnels) ≡ true)
        × ((ss.tunnel_id ≡ some t.id) ⊎ ((ss.connected ≡ true) × (has t.id used ≡ false)))
  unfolding resolve
  resolve_lem t h =
      elim (or_some_cases (by_id ss.tunnel_id tunnels)
        (if ss.connected then guess normalize ss tunnels used else none) t h) [
          | inl k ↦ let (named, m) = by_id_lem ss.tunnel_id tunnels t k in (m, inl named)
          | inr k ↦ elim (Bool-cases ss.connected) [
            | inl up ↦ let (free, m) = guess-IsFree t (rw up at k) in (m, inr (up, free))
            | inr down ↦ let no : ◌≡◌ {A = Option TunnelInfo} none (some t) = rw down at k in cc
          ]
        ]
