-- ===== src/Webui/Profiles.antt =====
-- server/webui/src/pages/WireGuardProfiles.tsx: the search, the sheet that uploads a profile and the
-- sheet that manages one. `F` is the type of the files that the browser gives, and `read` its reader,
-- which ends with the base64 of a file. The profile of the second sheet is an object that saving
-- changes in place; it is a field of the sheet here.
pub mod Manage
pub mod Offered
pub mod Saved
use Prim.Native.String
use pro_identity_access.Base.{
  ℕ, ◌/◌, ◌%◌, String, Bool, true, false, ◌||◌, Option, none, some, List, keep, or_else, truthy,
  ltb, if◌then◌else◌,
}
use pro_identity_access.Async.{Async, Thrown, message_or, catch, set, ◌>>=◌, ◌>>◌}
use pro_identity_access.Webui.Types.{WgHolder, WgProfile}
use pro_identity_access.Webui.Client.{decimal}

-- How long a profile is held.
abbrev duration : (seconds : ℕ) → String
unfolding decimal
duration seconds =
    let m = seconds / 60 in
    let h = m / 60 in
    if ltb seconds 60
    then "just now"
    else if ltb m 60
    then String.◌++◌ (decimal m) " min"
    else if ltb h 24
    then String.◌++◌ (decimal h) (String.◌++◌ " h " (String.◌++◌ (decimal (m % 60)) " min"))
    else String.◌++◌ (decimal (h / 24)) (String.◌++◌ " d " (String.◌++◌ (decimal (h % 24)) " h"))

abbrev holder_text : WgHolder → String
holder_text h =
    let on = if truthy h.device then String.◌++◌ " on " h.device else "" in
    String.◌++◌ h.name (String.◌++◌ on (String.◌++◌ ", " (duration h.held_seconds)))

abbrev filtered :
    (lower : String → String)
    → (includes : (text part : String) → Bool) → (query : String) → List WgProfile
    → List WgProfile
filtered lower includes query profiles =
    let q = lower query in
    if truthy q
    then keep (λ p. includes (lower p.name) q || includes (lower (or_else p.description "")) q)
        profiles
    else profiles

abbrev pub if_given : String → Option String
if_given s = if truthy s then some s else none

-- The sheet that uploads a profile.
pub record Upload (F : Type 0) : Type 0 where
  pub name : String
  pub description : String
  pub file : Option F
  pub shared : Bool
  pub busy : Bool
  pub error : String

-- What a new profile is made of.
pub record NewProfile : Type 0 where
  pub name : String
  pub description : Option String
  pub config : String
  pub shared : Bool

module _ {F : Type 0} where
  -- When the sheet opens.
  abbrev clear : Upload F → Upload F
  clear u = record u { name = ""; description = ""; file = none; shared = false; error = "" }

  -- `stem` is the name of a file without its ending .conf.
  abbrev on_file : (stem : F → String) → Option F → Upload F → Upload F
  on_file stem none u = record u { file = none }
  on_file stem (some f) u = record u {
    file = some f;
    name = if truthy u.name then u.name else stem f;
  }

module _ {F W : Type 0} (read : F → Async (Upload F × W) String)
    (create_profile : NewProfile → Async (Upload F × W) (Unit {0}))
    (on_saved : Async (Upload F × W) (Unit {0})) where
  abbrev send : (name description : String) → (shared : Bool) → F → Async (Upload F × W) (Unit {0})
  send name description shared f = do
    config ← read f
    create_profile
        record { name = name; description = if_given description; config = config; shared = shared }
    on_saved

  -- `submit`, of the sheet as it was drawn.
  abbrev submit :
      (name description : String) → (shared : Bool) → Option F → Async (Upload F × W) (Unit {0})
  submit name description shared none =
      set (λ (u : Upload F). record u { error = "Choose a .conf file" })
  submit name description shared (some f) = do
    set (λ (u : Upload F). record u { busy = true; error = "" })
    catch (send name description shared f)
        (λ e. set (λ (u : Upload F). record u { error = message_or "Upload failed" e }))
    set (λ (u : Upload F). record u { busy = false })
