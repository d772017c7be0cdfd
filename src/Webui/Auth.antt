-- ===== src/Webui/Auth.antt =====
-- server/webui/src/stores/useAuthStore.ts: who is signed in to the web interface, the token that
-- sessionStorage keeps, and the tests of permissions.
pub mod Permissions
use pro_identity_access.Base.{
  String, Bool, true, false, not, Option, none, some, List, [], ◌∷◌, or_else, has, any, truthy,
  if◌then◌else◌,
}
use pro_identity_access.Webui.Types.{User}

-- The store, and the item `wg_token` of sessionStorage.
pub record AuthState : Type 0 where
  pub token : Option String
  pub user : Option User
  pub ready : Bool
  pub stored : Option String

abbrev present : Option String → Bool
present none = false
present (some s) = truthy s

abbrev initial : Option String → AuthState
initial stored = record {
  token = stored;
  user = none;
  ready = not (present stored);
  stored = stored;
}

unfoldable pub set_auth : String → User → AuthState → AuthState
set_auth token user s = record {
  token = some token;
  user = some user;
  ready = true;
  stored = some token;
}

unfoldable pub logout : AuthState → AuthState
logout s = record { token = none; user = none; ready = true; stored = none }

-- `user.permissions?.includes(perm)`
abbrev pub granted : String → User → Bool
granted perm user = has perm (or_else user.permissions [])

abbrev pub user_has_perm : Option User → String → Bool
user_has_perm none perm = false
user_has_perm (some user) perm = if user.is_admin then true else granted perm user

-- `useHasPerm`
unfoldable pub has_perm : AuthState → String → Bool
has_perm s perm = user_has_perm s.user perm

abbrev pub user_has_any_perm : Option User → List String → Bool
user_has_any_perm none perms = false
user_has_any_perm (some user) perms =
    if user.is_admin then true else any (λ perm. granted perm user) perms

-- `useHasAnyPerm`
unfoldable pub has_any_perm : AuthState → List String → Bool
has_any_perm s perms = user_has_any_perm s.user perms
