-- ===== src/Webui/Profiles/Offered.antt =====
-- server/webui/src/pages/WireGuardProfiles.tsx: whom the sheet of a profile offers to assign.
use pro_identity_access.Base.{
  String, Bool, not, ◌&&◌, ◌≡◌, ap, inl, inr, List, [], ◌∷◌, map, any, has, ◌==◌, eq_iff, arith,
  Bool-cases,
}
use pro_identity_access.Webui.Types.{User, WgAssignment}
use pro_identity_access.Webui.Profiles.Manage.{unassigned}

abbrev ids : List User → List String
ids us = map (λ (u : User). u.id) us

abbrev holders : List WgAssignment → List String
holders held = map (λ (a : WgAssignment). a.user_id) held

abbrev is_active_user : String → List User → Bool
is_active_user id us = any (λ (u : User). id == u.id && u.is_active) us

-- A user is offered exactly if the list has an active user with the id and the profile is not
-- assigned to that id.
has-unassigned :
    (id : String) (us : List User) (held : List WgAssignment)
    → has id (ids (unassigned us held)) ≡ (not (has id (holders held)) && is_active_user id us)
unfolding unassigned
has-unassigned id [] held = ground arith
has-unassigned id (u ∷ us) held = elim (Bool-cases (id == u.id)) [
  | inl e ↦
      ground
        (arith, has-unassigned id us held, e, ap (λ v. has v (holders held)) ((eq_iff id u.id).0 e))
  | inr e ↦ ground (arith, has-unassigned id us held, e)
]
