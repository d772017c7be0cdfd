-- ===== src/Webui/ServerConfig/Edits.antt =====
-- The rows of endpoints while they are edited (server/webui/src/pages/ServerDetail.tsx).
use pro_identity_access.Base.{
  ℕ, ℤ, zero, suc, ◌+◌, ◌<◌, String, true, false, ◌≡◌, refl, ap, inl, inr, Option, some, List, [],
  ◌∷◌, ◌++◌, keep, map, All, All-append, length, or_else, truthy, nat_eq, Bool-cases, arith,
}
use pro_identity_access.Webui.Types.{WgServer, WgServerEndpoint, WgServerEndpointInput}
use pro_identity_access.Webui.ServerConfig.{
  clean, endpoint_forms, if_none, of_endpoint, update_of, Config, reset, Edit, set_name,
  set_endpoint, set_port, set_dns, name_at, host_at, port_at, priority_at, remove, add, change_at,
  remove_at, edit, edit_all,
}

abbrev pub IsOn : WgServerEndpointInput → Type 0
IsOn r = r.enabled ≡ some true

-- There is a row, and every row is enabled.
abbrev IsServed : List WgServerEndpointInput → Type 0
IsServed rs = (0 < length rs) × All IsOn rs

length-change_at :
    {A : Type 0} (i : ℕ) (f : A → A) (xs : List A) → length (change_at i f xs) ≡ length xs
length-change_at i f [] = refl
length-change_at zero f (x ∷ xs) = refl
length-change_at (suc i) f (x ∷ xs) = ap suc (length-change_at i f xs)

All-change_at :
    (i : ℕ) (f : WgServerEndpointInput → WgServerEndpointInput) (rs : List WgServerEndpointInput)
    → ((r : WgServerEndpointInput) → IsOn r → IsOn (f r))
    → All IsOn rs
    → All IsOn (change_at i f rs)
All-change_at i f [] k h = tt
All-change_at zero f (r ∷ rs) k (p, h) = (k r p, h)
All-change_at (suc i) f (r ∷ rs) k (p, h) = (p, All-change_at i f rs k h)

change_at-IsServed :
    (i : ℕ) (f : WgServerEndpointInput → WgServerEndpointInput) (rs : List WgServerEndpointInput)
    → ((r : WgServerEndpointInput) → IsOn r → IsOn (f r))
    → IsServed rs
    → IsServed (change_at i f rs)
change_at-IsServed i f rs k (n, h) =
    (let l = length-change_at i f rs in omega arith, All-change_at i f rs k h)

length-remove_at : {A : Type 0} (i : ℕ) (xs : List A) → length xs < length (remove_at i xs) + 2
length-remove_at i [] = omega arith
length-remove_at zero (x ∷ xs) = omega arith
length-remove_at (suc i) (x ∷ xs) = let l = length-remove_at i xs in omega arith

All-remove_at : (i : ℕ) (rs : List WgServerEndpointInput) → All IsOn rs → All IsOn (remove_at i rs)
All-remove_at i [] h = tt
All-remove_at zero (r ∷ rs) (p, h) = h
All-remove_at (suc i) (r ∷ rs) (p, h) = (p, All-remove_at i rs h)

append_positive :
    (rs : List WgServerEndpointInput) (r : WgServerEndpointInput) → 0 < length (rs ++ r ∷ [])
append_positive [] r = omega arith
append_positive (x ∷ rs) r = omega arith

many : (n : ℕ) → nat_eq n 1 ≡ false → 0 < n → 1 < n
many n h p = ground (arith, h, p)

module _ (parse_int : String → Option ℤ) (s : WgServer) where
  edit-IsServed :
      (e : Edit) (c : Config) → IsServed c.endpoints → IsServed (edit parse_int s e c).endpoints
  unfolding edit
  edit-IsServed (set_name x) c h = h
  edit-IsServed (set_endpoint x) c h = h
  edit-IsServed (set_port x) c h = h
  edit-IsServed (set_dns x) c h = h
  edit-IsServed (name_at i x) c h = change_at-IsServed i _ c.endpoints (λ r p. p) h
  edit-IsServed (host_at i x) c h = change_at-IsServed i _ c.endpoints (λ r p. p) h
  edit-IsServed (port_at i x) c h = change_at-IsServed i _ c.endpoints (λ r p. p) h
  edit-IsServed (priority_at i x) c h = change_at-IsServed i _ c.endpoints (λ r p. p) h
  edit-IsServed (remove i) c (n, h) = elim (Bool-cases (nat_eq (length c.endpoints) 1)) [
    | inl e ↦ rw e (n, h)
    | inr e ↦
        let l = length-remove_at i c.endpoints in
        let m = many (length c.endpoints) e n in rw e (omega arith, All-remove_at i c.endpoints h)
  ]
  edit-IsServed add c (n, h) =
      (append_positive c.endpoints _, All-append IsOn c.endpoints _ h (refl, tt))

  edit_all-IsServed :
      (es : List Edit) (c : Config)
      → IsServed c.endpoints
      → IsServed (edit_all parse_int s es c).endpoints
  unfolding edit_all
  edit_all-IsServed [] c h = h
  edit_all-IsServed (e ∷ es) c h = edit_all-IsServed es (edit parse_int s e c) (edit-IsServed e c h)

of_endpoints-IsOn :
    (es : List WgServerEndpoint)
    → All IsOn (map of_endpoint (keep (λ (e : WgServerEndpoint). e.enabled) es))
of_endpoints-IsOn [] = tt
of_endpoints-IsOn (e ∷ es) = elim (Bool-cases e.enabled) [
  | inl h ↦ rw h (refl, of_endpoints-IsOn es)
  | inr h ↦ rw h (of_endpoints-IsOn es)
]

if_none-IsServed :
    (s : WgServer) (rs : List WgServerEndpointInput) → All IsOn rs → IsServed (if_none s rs)
if_none-IsServed s [] h = (omega arith, (refl, tt))
if_none-IsServed s (r ∷ rs) h = (omega arith, h)

reset-IsServed : (s : WgServer) (c : Config) → IsServed (reset s c).endpoints
unfolding reset endpoint_forms
reset-IsServed s c = if_none-IsServed s _ (of_endpoints-IsOn (or_else s.endpoints []))

All-clean :
    (trim : String → String) (port : ℤ) (i : ℕ) (rs : List WgServerEndpointInput)
    → All IsOn rs
    → All IsOn (clean trim port i rs)
unfolding clean
All-clean trim port i [] h = tt
All-clean trim port i (r ∷ rs) (p, h) = elim (Bool-cases (truthy (trim r.host))) [
  | inl e ↦ rw e (ap (λ o. some (or_else o true)) p, All-clean trim port (suc i) rs h)
  | inr e ↦ rw e (All-clean trim port (suc i) rs h)
]

-- Once the form shows a server, a row is always left, whatever is edited, and no row that is sent is
-- a disabled one: endpoints of the server that are disabled are not sent back.
pub update_of-IsServed :
    (trim : String → String) (parse_int : String → Option ℤ) (s : WgServer) (es : List Edit)
    (c : Config)
    → let edited = edit_all parse_int s es (reset s c) in
      (0 < length edited.endpoints) × All IsOn (update_of trim parse_int s edited).endpoints
unfolding update_of
update_of-IsServed trim parse_int s es c =
    let (n, h) = edit_all-IsServed parse_int s es (reset s c) (reset-IsServed s c) in
    (n, All-clean trim _ 0 _ h)
