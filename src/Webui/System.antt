-- ===== src/Webui/System.antt =====
-- server/webui/src/pages/System.tsx: the tabs of the system page. `hash` is the part of the address
-- after `#`.
pub mod Settings
pub mod Reports
pub mod Roles
pub mod Downloads
use pro_identity_access.Base.{
  String, Bool, true, false, ◌||◌, Option, none, some, List, [], ◌∷◌, keep, find, first, or_else,
  or_some, ◌==◌, ◌≡◌, refl, ap, inl, inr, Option-cases, Bool-cases, arith,
}
use pro_identity_access.Webui.Auth.{AuthState, has_perm}

pub data Tab : Type 0 where
  settings roles health audit denials reports : Tab

abbrev id : Tab → String
id settings = "settings"
id roles = "roles"
id health = "health"
id audit = "audit"
id denials = "denials"
id reports = "reports"

-- `TAB_DEFS`
abbrev tab_defs : List Tab
tab_defs = settings ∷ roles ∷ health ∷ denials ∷ audit ∷ reports ∷ []

unfoldable allow : AuthState → Tab → Bool
allow a settings = has_perm a "system.settings"
allow a roles = has_perm a "roles.manage"
allow a health = has_perm a "diagnostics.read"
allow a denials = has_perm a "denials.read"
allow a audit = has_perm a "audit.read"
allow a reports = has_perm a "users.manage" || has_perm a "sessions.manage"

-- `useTabsForUser`
unfoldable tabs_for_user : AuthState → List Tab
unfolding allow
tabs_for_user a = keep (allow a) tab_defs

abbrev named : String → List Tab → Option Tab
named hash tabs = find (λ t. id t == hash) tabs

-- The tab that the page opens with.
unfoldable initial_tab : (hash : String) → List Tab → Tab
initial_tab hash tabs = or_else (or_some (named hash tabs) (first tabs)) settings

-- The tab that is asked for, where there is one.
abbrev Chosen : (Tab → Bool) → Option Tab → Type 0
Chosen p none = Unit
Chosen p (some t) = p t ≡ true

find-keep : (p f : Tab → Bool) (ts : List Tab) → Chosen p (find f (keep p ts))
find-keep p f [] = tt
find-keep p f (t ∷ ts) = elim (Bool-cases (p t)) [
  | inl e ↦ rw e (elim (Bool-cases (f t)) [ inl g ↦ rw g e | inr g ↦ rw g (find-keep p f ts) ])
  | inr e ↦ rw e (find-keep p f ts)
]

first-keep : (p : Tab → Bool) (ts : List Tab) → Chosen p (first (keep p ts))
first-keep p [] = tt
first-keep p (t ∷ ts) = elim (Bool-cases (p t)) [ inl e ↦ rw e e | inr e ↦ rw e (first-keep p ts) ]

Chosen-or_some :
    (p : Tab → Bool) (a b : Option Tab) → Chosen p a → Chosen p b → Chosen p (or_some a b)
Chosen-or_some p none b h k = k
Chosen-or_some p (some t) b h k = h

settled_allow :
    (p : Tab → Bool) (o r : Option Tab) (t : Tab)
    → r ≡ some t
    → Chosen p (or_some o r)
    → p (or_else (or_some o r) settings) ≡ true
settled_allow p none none t e h = cc
settled_allow p none (some u) t e h = h
settled_allow p (some u) r t e h = h

initial_tab-keep :
    (p : Tab → Bool) (all : List Tab) (hash : String) (t : Tab) (ts : List Tab)
    → keep p all ≡ t ∷ ts
    → p (initial_tab hash (keep p all)) ≡ true
unfolding initial_tab
initial_tab-keep p all hash t ts h =
    settled_allow p (named hash (keep p all)) (first (keep p all)) t (ap first h)
      (Chosen-or_some p _ _ (find-keep p (λ t. id t == hash) all) (first-keep p all))

-- The page never opens with a tab that the user may not see, whatever the address says, if there is a
-- tab that the user may see.
initial_tab-allow :
    (hash : String) (a : AuthState) (t : Tab) (ts : List Tab)
    → tabs_for_user a ≡ t ∷ ts
    → allow a (initial_tab hash (tabs_for_user a)) ≡ true
unfolding tabs_for_user
initial_tab-allow hash a t ts h = initial_tab-keep (allow a) tab_defs hash t ts h
