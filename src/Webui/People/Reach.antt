-- ===== src/Webui/People/Reach.antt =====
-- What a user can reach, by resource (server/webui/src/pages/access/People.tsx).
use pro_identity_access.Base.{
  String, ◌≡◌, refl, sym, ap, ◌∙◌, inl, inr, List, [], ◌∷◌, ◌++◌, keep, or_else, ◌==◌, eq_iff,
  if◌then◌else◌, Bool-cases, Dict, lookup, lookup-insert,
}
use mathlib.Core.List.{append-nil, append_assoc}
use pro_identity_access.Webui.Rows.{ReachRow}
use pro_identity_access.Webui.People.{file, by_resource}

abbrev rows_at : String → Dict (List ReachRow) → List ReachRow
rows_at id m = or_else (lookup id m) []

rows_at-file :
    (id : String) (r : ReachRow) (m : Dict (List ReachRow))
    → rows_at id (file r m) ≡ (if r.resource_id == id then rows_at id m ++ r ∷ [] else rows_at id m)
unfolding file
rows_at-file id r m = elim (Bool-cases (r.resource_id == id)) [
  | inl e ↦
      rw (lookup-insert r.resource_id id (rows_at r.resource_id m ++ r ∷ []) m, e)
        (ap (λ k. rows_at k m ++ r ∷ []) ((eq_iff r.resource_id id).0 e))
  | inr e ↦ rw (lookup-insert r.resource_id id (rows_at r.resource_id m ++ r ∷ []) m, e) refl
]

abbrev at_resource : String → List ReachRow → List ReachRow
at_resource id rs = keep (λ (r : ReachRow). r.resource_id == id) rs

rows_at-by_resource_from :
    (id : String) (rs : List ReachRow) (m : Dict (List ReachRow))
    → rows_at id (by_resource rs m) ≡ rows_at id m ++ at_resource id rs
unfolding by_resource
rows_at-by_resource_from id [] m = sym (append-nil (rows_at id m))
rows_at-by_resource_from id (r ∷ rs) m =
    rows_at-by_resource_from id rs (file r m) ∙ elim (Bool-cases (r.resource_id == id)) [
      | inl e ↦
          rw (rows_at-file id r m, e) (append_assoc (rows_at id m) (r ∷ []) (at_resource id rs))
      | inr e ↦ rw (rows_at-file id r m, e) refl
    ]

-- Grouping loses no way to reach a resource and mixes none up: under its id stand its rows, in the
-- order in which the server sent them.
rows_at-by_resource :
    (id : String) (rs : List ReachRow) → rows_at id (by_resource rs []) ≡ at_resource id rs
unfolding lookup
rows_at-by_resource id rs = rows_at-by_resource_from id rs []
