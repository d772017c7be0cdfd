-- ===== src/Webui/Profiles/Manage.antt =====
-- server/webui/src/pages/WireGuardProfiles.tsx: the sheet that manages a profile. The requests of
-- `load` are not awaited, so their answers are events; `ask_assignments` and `ask_users` send them.
-- `confirm` is what the user answers.
use pro_identity_access.Base.{
  ℕ, ◌+◌, String, Bool, true, false, not, ◌&&◌, ◌||◌, ◌==◌, Option, none, some, List, map, keep,
  has, or_else, is_some, truthy, length, nat_eq, if◌then◌else◌,
}
use pro_identity_access.Async.{Async, Thrown, message_or, pure, catch, set, ◌>>=◌, ◌>>◌}
use pro_identity_access.Webui.Types.{User, WgHolder, WgProfile, WgAssignment}
use pro_identity_access.Webui.Profiles.{if_given}

pub data Tab : Type 0 where
  settings_tab users_tab : Tab

pub record Sheet (F : Type 0) : Type 0 where
  pub profile : WgProfile
  pub tab : Tab
  pub assignments : List WgAssignment
  pub users : List User
  pub add_user_id : String
  pub busy : Bool
  pub error : String
  pub edit_name : String
  pub edit_description : String
  pub edit_shared : Bool
  pub new_file : Option F
  pub file_key : ℕ
  pub saved : Bool
  pub holder : Option WgHolder

-- The users that can still be chosen.
unfoldable pub unassigned : List User → List WgAssignment → List User
unassigned users assignments =
    let taken = map (λ (a : WgAssignment). a.user_id) assignments in
    keep (λ u. not (has u.id taken) && u.is_active) users

-- Whether another user can be chosen.
abbrev can_add : WgProfile → List WgAssignment → Bool
can_add p assignments = p.shared || nat_eq (length assignments) 0

abbrev same : Bool → Bool → Bool
same true b = b
same false b = not b

-- What saving sends.
pub record Update : Type 0 where
  pub name : String
  pub description : Option String
  pub shared : Bool
  pub config : Option String

module _ {F : Type 0} where
  -- When the sheet opens on a profile, before `load` answers; the lists are those it showed last.
  abbrev show : WgProfile → Tab → Sheet F → Sheet F
  show p tab s = record s {
    profile = p;
    tab = tab;
    error = "";
    add_user_id = "";
    saved = false;
    new_file = none;
    file_key = s.file_key + 1;
    edit_name = p.name;
    edit_description = or_else p.description "";
    edit_shared = p.shared;
    holder = p.in_use_by;
  }

  abbrev assignments_loaded : Option (List WgAssignment) → Sheet F → Sheet F
  assignments_loaded answer s = record s { assignments = or_else answer List.[] }

  abbrev users_loaded : Option (List User) → Sheet F → Sheet F
  users_loaded answer s = record s { users = or_else answer List.[] }

  abbrev open_tab : Tab → Sheet F → Sheet F
  open_tab tab s = record s { tab = tab; error = "" }

  unfoldable pub is_dirty : Sheet F → Bool
  is_dirty s =
      not (s.edit_name == s.profile.name)
      || not (s.edit_description == or_else s.profile.description "")
      || not (same s.edit_shared s.profile.shared)
      || is_some s.new_file

  -- `Object.assign(profile, ...)` and the updates after it.
  unfoldable pub keep_saved :
      (trim : String → String) → (name description : String) → (shared : Bool) → Sheet F → Sheet F
  keep_saved trim name description shared s = record s {
    profile = record s.profile {
      name = trim name;
      description = if_given (trim description);
      shared = shared;
    };
    new_file = none;
    file_key = s.file_key + 1;
    saved = true;
  }

  abbrev start : Sheet F → Sheet F
  start s = record s { busy = true; error = "" }

  abbrev stop : Sheet F → Sheet F
  stop s = record s { busy = false }

  abbrev fail : String → Thrown → Sheet F → Sheet F
  fail text e s = record s { error = message_or text e }

module _ {F W : Type 0} (on_changed : Async (Sheet F × W) (Unit {0})) where
  -- `config: newFile ? await fileToBase64(newFile) : undefined`
  abbrev config_of :
      (F → Async (Sheet F × W) String) → Option F → Async (Sheet F × W) (Option String)
  config_of read none = pure none
  config_of read (some f) = do config ← read f; pure (some config)

  -- `saveSettings`, of the sheet as it was drawn.
  abbrev save_settings :
      (trim : String → String)
      → (read : F → Async (Sheet F × W) String)
      → (update_profile : (id : String) → Update → Async (Sheet F × W) (Unit {0})) → Sheet F
      → Async (Sheet F × W) (Unit {0})
  unfolding keep_saved
  save_settings trim read update_profile drawn = do
    set (λ (s : Sheet F). record s { busy = true; error = ""; saved = false })
    catch
        (do
          config ← config_of read drawn.new_file
          update_profile drawn.profile.id record {
            name = drawn.edit_name;
            description = if_given drawn.edit_description;
            shared = drawn.edit_shared;
            config = config;
          }
          set (keep_saved trim drawn.edit_name drawn.edit_description drawn.edit_shared)
          on_changed)
        (λ e. set (fail "Save failed" e))
    set stop

module _ {F W : Type 0} (ask_assignments : (id : String) → Async (Sheet F × W) (Unit {0}))
    (ask_users on_changed : Async (Sheet F × W) (Unit {0})) where
  abbrev load : (id : String) → Async (Sheet F × W) (Unit {0})
  load id = do ask_assignments id; ask_users

  abbrev add :
      (assign : (id user_id : String) → Async (Sheet F × W) (Unit {0}))
      → Sheet F
      → Async (Sheet F × W) (Unit {0})
  add assign drawn = if not (truthy drawn.add_user_id) then pure tt else do
    set start
    catch
        (do
          assign drawn.profile.id drawn.add_user_id
          set (λ (s : Sheet F). record s { add_user_id = "" })
          load drawn.profile.id
          on_changed)
        (λ e. set (fail "Assign failed" e))
    set stop

  abbrev remove :
      (unassign : (id user_id : String) → Async (Sheet F × W) (Unit {0}))
      → (user_id : String) → Sheet F
      → Async (Sheet F × W) (Unit {0})
  remove unassign user_id drawn =
      catch (do unassign drawn.profile.id user_id; load drawn.profile.id; on_changed)
        λ e. set (fail "Remove failed" e)

module _ {F W : Type 0} (on_changed : Async (Sheet F × W) (Unit {0})) where
  abbrev release :
      (confirm : Bool)
      → (release_profile : (id : String) → Async (Sheet F × W) (Unit {0})) → Sheet F
      → Async (Sheet F × W) (Unit {0})
  release confirm release_profile drawn =
      if not (is_some drawn.holder) || not confirm
      then pure tt
      else catch
          (do
            release_profile drawn.profile.id
            set (λ (s : Sheet F). record s { holder = none })
            on_changed)
          λ e. set (fail "Release failed" e)

  abbrev delete :
      (confirm : Bool)
      → (delete_profile : (id : String) → Async (Sheet F × W) (Unit {0}))
      → (on_close : Async (Sheet F × W) (Unit {0})) → Sheet F
      → Async (Sheet F × W) (Unit {0})
  delete confirm delete_profile on_close drawn =
      if not confirm
      then pure tt
      else catch (do delete_profile drawn.profile.id; on_changed; on_close)
          λ e. set (fail "Delete failed" e)
