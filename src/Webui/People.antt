-- ===== src/Webui/People.antt =====
-- server/webui/src/pages/access/People.tsx: the list of users, the sheet of an account and the drawer
-- of what a user may reach. What nothing catches in the source, nothing catches here.
pub mod Reach
use pro_identity_access.Base.{
  ℕ, String, Bool, true, false, not, ◌||◌, Option, none, some, List, [], ◌∷◌, ◌++◌, keep, find, any,
  or_else, truthy, length, ◌==◌, if◌then◌else◌, Dict, lookup, insert,
}
use pro_identity_access.Async.{Async, Thrown, js_error, plain, message_or, catch, set, ◌>>=◌, ◌>>◌}
use pro_identity_access.Webui.Types.{User, ResourceGroup}
use pro_identity_access.Webui.Rows.{ReachRow}
use pro_identity_access.Webui.Client.{path}

-- The users that the search shows.
abbrev filtered :
    (lower : String → String)
    → (includes : (text part : String) → Bool) → (query : String) → List User
    → List User
filtered lower includes query users =
    let q = lower query in
    if truthy q
    then keep
        (λ u.
          includes (lower u.username) q
          || includes (lower u.email) q
          || includes (lower (path (u.first_name ∷ " " ∷ u.last_name ∷ []))) q)
        users
    else users

abbrev selected : Option String → List User → Option User
selected none users = none
selected (some id) users = find (λ u. u.id == id) users

pub data Mode : Type 0 where
  closed create : Mode
  edit : (id : String) → Mode

pub record Form : Type 0 where
  pub username : String
  pub email : String
  pub password : String
  pub first_name : String
  pub last_name : String
  pub is_admin : Bool

abbrev blank : Form
blank = record {
  username = "";
  email = "";
  password = "";
  first_name = "";
  last_name = "";
  is_admin = false;
}

abbrev form_of : User → Form
form_of u = record {
  username = u.username;
  email = u.email;
  password = "";
  first_name = u.first_name;
  last_name = u.last_name;
  is_admin = u.is_admin;
}

pub record Sheet : Type 0 where
  pub form : Form
  pub error : String
  pub busy : Bool

-- When the mode or the user that is edited changes.
abbrev fill : Mode → Option User → Sheet → Sheet
fill create u s = record s { form = blank; error = "" }
fill (edit id) (some u) s = record s { form = form_of u; error = "" }
fill _ _ s = record s { error = "" }

-- What a change of an account sends.
pub record Patch : Type 0 where
  pub email : String
  pub first_name : String
  pub last_name : String
  pub is_admin : Bool
  pub password : Option String

unfoldable patch_of : Form → Patch
patch_of f = record {
  email = f.email;
  first_name = f.first_name;
  last_name = f.last_name;
  is_admin = f.is_admin;
  password = if truthy f.password then some f.password else none;
}

abbrev start : Sheet → Sheet
start s = record s { busy = true; error = "" }

abbrev fail : Thrown → Sheet → Sheet
fail e s = record s { error = message_or "Failed" e }

abbrev stop : Sheet → Sheet
stop s = record s { busy = false }

module _ {W : Type 0} (update_user : (id : String) → Patch → Async (Sheet × W) (Unit {0}))
    (create_user : Form → Async (Sheet × W) (Unit {0}))
    (on_saved : Async (Sheet × W) (Unit {0})) where
  abbrev save : Mode → Option User → Form → Async (Sheet × W) (Unit {0})
  save (edit id) (some u) f = update_user u.id (patch_of f)
  save mode u f = create_user f

  -- `submit`, of the form as it was drawn.
  abbrev submit : Mode → Option User → Form → Async (Sheet × W) (Unit {0})
  unfolding patch_of
  submit mode u f = do set start; catch (do save mode u f; on_saved) (λ e. set (fail e)); set stop

-- The part of the drawer that turns off somebody's second factor.
pub record Disabling : Type 0 where
  pub show : Bool
  pub admin_pw : String
  pub error : String
  pub loading : Bool

abbrev ask_password : Disabling → Disabling
ask_password d = record d { show = true; admin_pw = ""; error = "" }

-- `e.message || 'Failed'`
abbrev reason : Thrown → String
reason (js_error name message) = if truthy message then message else "Failed"
reason (plain s) = "Failed"

module _ {W : Type 0} (disable_totp : (admin_password : String) → Async (Disabling × W) (Unit {0}))
    (on_changed : Async (Disabling × W) (Unit {0})) where
  abbrev confirm : (admin_pw : String) → Async (Disabling × W) (Unit {0})
  confirm admin_pw = do
    set (λ d. record d { loading = true; error = "" })
    catch
        (do disable_totp admin_pw; set (λ d. record d { show = false; admin_pw = "" }); on_changed)
        λ e. set (λ d. record d { error = reason e })
    set (λ d. record d { loading = false })

-- The bundles that can still be assigned.
abbrev available : (allowed assigned : List ResourceGroup) → List ResourceGroup
available allowed assigned = keep (λ b. not (any (λ a. a.id == b.id) assigned)) allowed

-- `(m[r.resource_id] ??= []).push(r)`
unfoldable pub file : ReachRow → Dict (List ReachRow) → Dict (List ReachRow)
file r m = insert r.resource_id (or_else (lookup r.resource_id m) [] ++ r ∷ []) m

-- `reachByResource`
unfoldable pub by_resource : List ReachRow → Dict (List ReachRow) → Dict (List ReachRow)
unfolding file
by_resource [] m = m
by_resource (r ∷ rs) m = by_resource rs (file r m)

abbrev reachable_count : List ReachRow → ℕ
unfolding by_resource
reachable_count rs = length (by_resource rs [])
