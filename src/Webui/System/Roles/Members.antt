-- ===== src/Webui/System/Roles/Members.antt =====
-- The members of the roles (server/webui/src/pages/System.tsx).
use pro_identity_access.Base.{
  String, ◌≡◌, refl, sym, ap, ◌∙◌, inl, inr, List, [], ◌∷◌, ◌++◌, or_else, ◌==◌, eq_iff,
  if◌then◌else◌, Bool-cases, Dict, lookup, lookup-insert,
}
use mathlib.Core.List.{append-nil, append_assoc}
use pro_identity_access.Webui.Types.{User}
use pro_identity_access.Webui.System.Roles.{UserRoles, push, push_all, collect, members_of}

-- The user, once for each time the role is in its list.
abbrev times : String → List String → User → List User
times r [] u = []
times r (id ∷ ids) u = let rest = times r ids u in if id == r then u ∷ rest else rest

abbrev pub with_role : String → List UserRoles → List User
with_role r [] = []
with_role r (u ∷ us) = times r u.role_ids u.user ++ with_role r us

members_of-push :
    (r id : String) (u : User) (d : Dict (List User))
    → members_of r (push id u d) ≡ (if id == r then members_of r d ++ u ∷ [] else members_of r d)
unfolding members_of push
members_of-push r id u d = elim (Bool-cases (id == r)) [
  | inl e ↦
      rw (lookup-insert id r (or_else (lookup id d) [] ++ u ∷ []) d, e)
        (ap (λ k. or_else (lookup k d) [] ++ u ∷ []) ((eq_iff id r).0 e))
  | inr e ↦ rw (lookup-insert id r (or_else (lookup id d) [] ++ u ∷ []) d, e) refl
]

members_of-push_all :
    (r : String) (ids : List String) (u : User) (d : Dict (List User))
    → members_of r (push_all ids u d) ≡ members_of r d ++ times r ids u
unfolding push_all
members_of-push_all r [] u d = sym (append-nil (members_of r d))
members_of-push_all r (id ∷ ids) u d =
    members_of-push_all r ids u (push id u d) ∙ elim (Bool-cases (id == r)) [
      | inl e ↦
          rw (members_of-push r id u d, e) (append_assoc (members_of r d) (u ∷ []) (times r ids u))
      | inr e ↦ rw (members_of-push r id u d, e) refl
    ]

members_of-collect_from :
    (r : String) (us : List UserRoles) (d : Dict (List User))
    → members_of r (collect us d) ≡ members_of r d ++ with_role r us
unfolding collect
members_of-collect_from r [] d = sym (append-nil (members_of r d))
members_of-collect_from r (u ∷ us) d =
    members_of-collect_from r us (push_all u.role_ids u.user d)
    ∙ ap (λ m. m ++ with_role r us) (members_of-push_all r u.role_ids u.user d)
    ∙ append_assoc (members_of r d) (times r u.role_ids u.user) (with_role r us)

-- The members that the page lists for a role are the users whose own lists hold the role, in the
-- order of the users, and nobody else.
pub members_of-collect :
    (r : String) (us : List UserRoles) → members_of r (collect us []) ≡ with_role r us
unfolding members_of lookup
members_of-collect r us = members_of-collect_from r us []
