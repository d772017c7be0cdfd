-- ===== src/Webui/Auth/Permissions.antt =====
-- server/webui/src/stores/useAuthStore.ts: which permissions are held.
use pro_identity_access.Base.{
  String, false, ◌≡◌, inl, inr, refl, sym, Option, none, some, List, [], ◌∷◌, any, Bool-cases,
}
use pro_identity_access.Webui.Types.{User}
use pro_identity_access.Webui.Auth.{
  AuthState, granted, user_has_perm, user_has_any_perm, has_perm, has_any_perm,
}

any_signed_out : (ps : List String) → any (user_has_perm none) ps ≡ false
any_signed_out [] = refl
any_signed_out (p ∷ ps) = any_signed_out ps

any-granted :
    (u : User) (ps : List String)
    → u.is_admin ≡ false
    → any (λ p. granted p u) ps ≡ any (user_has_perm (some u)) ps
any-granted u [] h = refl
any-granted u (p ∷ ps) h = rw (h, any-granted u ps h) refl

any_user :
    (user : Option User) (p : String) (ps : List String)
    → user_has_any_perm user (p ∷ ps) ≡ any (user_has_perm user) (p ∷ ps)
any_user none p ps = sym (any_signed_out ps)
any_user (some u) p ps = elim (Bool-cases u.is_admin) [
  | inl a ↦ rw a refl
  | inr a ↦ rw (sym (any-granted u (p ∷ ps) a), a) refl
]

-- An area that needs one of some permissions, at least one, is open exactly if a single one of
-- them is held.
has_any_perm-has_perm :
    (s : AuthState) (p : String) (ps : List String)
    → has_any_perm s (p ∷ ps) ≡ any (has_perm s) (p ∷ ps)
unfolding has_any_perm has_perm
has_any_perm-has_perm s p ps = any_user s.user p ps
