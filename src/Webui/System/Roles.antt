-- ===== src/Webui/System/Roles.antt =====
-- server/webui/src/pages/System.tsx: the tab of the roles, the sheet that names a role and the drawer
-- of its members and permissions.
pub mod Members
pub mod Granted
use pro_identity_access.Base.{
  ℕ, ◌+◌, String, Bool, true, false, not, ◌&&◌, ◌||◌, Option, none, some, List, [], ◌∷◌, ◌++◌, map,
  keep, find, any, has, length, or_else, truthy, nat_eq, ◌==◌, if◌then◌else◌, Dict, lookup, insert,
}
use pro_identity_access.Async.{Async, Thrown, message_or, catch, set, ◌>>=◌, ◌>>◌}
use pro_identity_access.Webui.Types.{Group, User, PermDef}

pub data Mode : Type 0 where
  closed create : Mode
  edit : (id : String) → Mode

pub record Roles : Type 0 where
  pub roles : List Group
  pub users : List User
  pub members : Dict (List User)
  pub query : String
  pub mode : Mode
  pub selected_id : Option String

-- A user, and the ids of the roles that `api.userGroups` answers for it.
pub record UserRoles : Type 0 where
  pub user : User
  pub role_ids : List String

-- `(map[id] ??= []).push(user)`
unfoldable pub push : String → User → Dict (List User) → Dict (List User)
push id user d = insert id (or_else (lookup id d) [] ++ user ∷ []) d

unfoldable pub push_all : List String → User → Dict (List User) → Dict (List User)
unfolding push
push_all [] user d = d
push_all (id ∷ ids) user d = push_all ids user (push id user d)

unfoldable pub collect : List UserRoles → Dict (List User) → Dict (List User)
unfolding push_all
collect [] d = d
collect (u ∷ us) d = collect us (push_all u.role_ids u.user d)

unfoldable pub members_of : String → Dict (List User) → List User
members_of id d = or_else (lookup id d) []

abbrev receive : Option (List Group) → Option (List User) → Roles → Roles
receive rs us s = record s { roles = or_else rs []; users = or_else us [] }

module _ {W : Type 0} (list_both : Async (Roles × W) (Option (List Group) × Option (List User)))
    (list_roles : List User → Async (Roles × W) (List UserRoles)) where
  -- `load`; nothing catches what its calls throw.
  abbrev load : Async (Roles × W) (Unit {0})
  unfolding collect
  load = do
    answer ← list_both
    set (receive answer.0 answer.1)
    lists ← list_roles (or_else answer.1 [])
    set (λ s. record s { members = collect lists [] })

-- The roles that the search shows.
unfoldable pub filtered :
    (lower : String → String) (includes : (text part : String) → Bool)
    → (query : String) → List Group
    → List Group
filtered lower includes query roles =
    let q = lower query in
    keep
      (λ r.
        not (truthy q)
        || includes (lower r.name) q
        || includes (lower (or_else r.description "")) q)
      roles

abbrev selected : Roles → Option Group
selected s = elim s.selected_id [ none ↦ none | some id ↦ find (λ r. r.id == id) s.roles ]

-- The sheet.
pub record Naming : Type 0 where
  pub name : String
  pub description : String
  pub busy : Bool
  pub error : String

-- When the mode or the role that is edited changes.
abbrev fill : Mode → Option Group → Naming → Naming
fill closed g n = record n { error = "" }
fill create g n = record n { name = ""; description = ""; error = "" }
fill (edit id) none n = record n { error = "" }
fill (edit id) (some g) n = record n {
  name = g.name;
  description = or_else g.description "";
  error = "";
}

abbrev start : Naming → Naming
start n = record n { busy = true; error = "" }

abbrev fail : Thrown → Naming → Naming
fail e n = record n { error = message_or "Failed" e }

abbrev stop : Naming → Naming
stop n = record n { busy = false }

module _ {W : Type 0} (create_group : (name description : String) → Async (Naming × W) (Unit {0}))
    (update_group : (id name description : String) → Async (Naming × W) (Unit {0}))
    (on_saved : Async (Naming × W) (Unit {0})) where
  abbrev save : Mode → Option Group → Naming → Async (Naming × W) (Unit {0})
  save (edit id) (some g) n = update_group g.id n.name n.description
  save mode g n = create_group n.name n.description

  -- `submit`, of the form as it was drawn.
  abbrev submit : Mode → Option Group → Naming → Async (Naming × W) (Unit {0})
  submit mode g n = do set start; catch (do save mode g n; on_saved) (λ e. set (fail e)); set stop

-- The drawer.
pub record Drawer : Type 0 where
  pub catalog : List PermDef
  pub perms : List String
  pub saving_perms : Bool

-- The role of the drawer is another object.
abbrev reset : Group → Drawer → Drawer
reset role d = record d { perms = or_else role.permissions [] }

unfoldable pub toggle : (key : String) → List String → List String
toggle key perms = if has key perms then keep (λ x. not (x == key)) perms else perms ++ key ∷ []

abbrev toggle_perm : (key : String) → Drawer → Drawer
toggle_perm key d = record d { perms = toggle key d.perms }

abbrev candidates : (all_users members : List User) → List User
candidates all_users members = keep (λ u. not (any (λ m. m.id == u.id) members)) all_users

-- `new Set(xs)`, from the last element on: what is asked of it does not depend on the order.
unfoldable pub set_of : List String → List String
set_of [] = []
set_of (x ∷ xs) = let rest = set_of xs in if has x rest then rest else x ∷ rest

abbrev pub has_all : List String → List String → Bool
has_all [] b = true
has_all (x ∷ a) b = has x b && has_all a b

-- `dirty`
unfoldable pub is_dirty : (permissions perms : List String) → Bool
unfolding set_of
is_dirty permissions perms =
    let a = set_of permissions in
    let b = set_of perms in if nat_eq (length a) (length b) then not (has_all a b) else true

-- `groupedCatalog`
abbrev grouped : List PermDef → Dict (List PermDef) → Dict (List PermDef)
grouped [] m = m
grouped (p ∷ ps) m = grouped ps (insert p.category (or_else (lookup p.category m) [] ++ p ∷ []) m)

abbrev saving : Bool → Drawer → Drawer
saving b d = record d { saving_perms = b }

module _ {W : Type 0}
    (add_user_group remove_user_group : (uid role_id : String) → Async (Drawer × W) (Unit {0}))
    (update_role_permissions : String → List String → Async (Drawer × W) (Unit {0}))
    (delete_group : String → Async (Drawer × W) (Unit {0}))
    (on_changed on_delete : Async (Drawer × W) (Unit {0})) (role : Group) where
  abbrev add_member : String → Async (Drawer × W) (Unit {0})
  add_member uid = do add_user_group uid role.id; on_changed

  abbrev remove_member : String → Async (Drawer × W) (Unit {0})
  remove_member uid = do remove_user_group uid role.id; on_changed

  -- `savePerms`, of the permissions as they were drawn; what it throws is not caught.
  abbrev save_perms : List String → Async (Drawer × W) (Unit {0})
  save_perms perms s =
      let (r, (d, w)) =
        (do set (saving true); update_role_permissions role.id perms; on_changed) s in
      (r, (saving false d, w))

  abbrev delete : Async (Drawer × W) (Unit {0})
  delete = do delete_group role.id; on_delete
