-- ===== src/Desktop/OpenVpnPanel.antt =====
-- client/frontend/src/components/OpenVPNPanel.tsx: the rows of OpenVPN profiles, the one form that is
-- open, and what the forms send. A form is submitted as it was drawn.
pub mod Asking
use Prim.Native.String
use pro_identity_access.Base.{
  ℕ, String, Bool, true, false, not, ◌&&◌, ◌||◌, Option, none, some, List, [], ◌∷◌, keep, has,
  or_else, or_some, truthy, ◌==◌, if◌then◌else◌, Dict,
}
use text.Mathlib.Text.{starts_with}
use pro_identity_access.Async.{Async, Thrown, message_of, pure, catch, set, ◌>>=◌, ◌>>◌}
use pro_identity_access.Desktop.Types.{TunnelStatus, disconnected}
use pro_identity_access.Desktop.OpenVpn.{OpenVpnStatus, is_up}
use pro_identity_access.Desktop.Bridge.Bindings.{
  OpenVpnProfileView, Source, assigned, local, DevType, tun, tap,
}

abbrev source_text : Source → String
source_text assigned = "assigned"
source_text local = "local"

-- `sid`
unfoldable session_id : OpenVpnProfileView → String
session_id p = String.◌++◌ (source_text p.source) (String.◌++◌ ":" p.id)

abbrev is_key_error : Option String → Bool
is_key_error none = false
is_key_error (some code) = starts_with code "key_passphrase"

-- `isPassphraseError`
unfoldable pub is_passphrase_error : OpenVpnStatus → Bool
is_passphrase_error st = is_key_error st.error_code

-- `askedFor` and the form that is open.
pub record Panel : Type 0 where
  pub asked : List String
  pub open_form : Option String

abbrev forget : String → List String → List String
forget id ids = keep (λ x. not (x == id)) ids

-- One turn of the loop over the sessions.
unfoldable pub visit : (id : String) → (failed : Bool) → Panel → Panel
visit id failed p =
    if failed
    then if has id p.asked
      then p
      else record p { asked = id ∷ p.asked; open_form = or_some p.open_form (some id) }
    else record p { asked = forget id p.asked }

-- The effect on the sessions.
unfoldable pub ask : Dict OpenVpnStatus → Panel → Panel
unfolding visit is_passphrase_error
ask [] p = p
ask ((id, st) ∷ sessions) p = ask sessions (visit id (is_passphrase_error st) p)

-- The reports of the sessions that come in, one after the other.
unfoldable pub ask_all : List (Dict OpenVpnStatus) → Panel → Panel
unfolding ask
ask_all [] p = p
ask_all (sessions ∷ reports) p = ask_all reports (ask sessions p)

unfoldable pub set_open_form : Option String → Panel → Panel
set_open_form o p = record p { open_form = o }

-- The status of a row, and whether it can be disconnected.
abbrev row_status : Option OpenVpnStatus → TunnelStatus
row_status none = disconnected
row_status (some st) = st.status

abbrev is_live : Option OpenVpnStatus → Bool
is_live st = is_up (row_status st)

pub record Row : Type 0 where
  pub busy : Bool

pub record RowApi (W : Type 0) : Type 0 where
  pub disconnect : (session_id : String) → Async (Row × W) (Unit {0})
  pub load_sessions : Async (Row × W) (Unit {0})
  pub warn : (text : String) → Async (Row × W) (Unit {0})  -- `toast`
  pub confirm : (name : String) → Async (Row × W) Bool
  pub delete : (id : String) → Async (Row × W) (Unit {0})
  pub on_deleted : Async (Row × W) (Unit {0})

abbrev row_busy : Bool → Row → Row
row_busy b r = record r { busy = b }

module _ {W : Type 0} (api : RowApi W) (p : OpenVpnProfileView) where
  abbrev disconnect : Async (Row × W) (Unit {0})
  unfolding session_id
  disconnect state =
      let (r, (row, w)) =
        (do
          set (row_busy true)
          catch (do api.disconnect (session_id p); api.load_sessions)
              (λ e. api.warn (message_of e)))
          state in
      (r, (row_busy false row, w))

  abbrev delete : Async (Row × W) (Unit {0})
  delete = do
    agreed ← api.confirm p.name
    if agreed then catch (do api.delete p.id; api.on_deleted) (λ _. pure tt) else pure tt

-- The form that connects.
pub record Form : Type 0 where
  pub username : String
  pub password : String
  pub passphrase : String
  pub totp : String
  pub custom_ip : String
  pub remember : Bool
  pub busy : Bool
  pub error : String

abbrev open_connect : OpenVpnProfileView → Form
open_connect p = record {
  username = or_else p.remembered_user "";
  password = "";
  passphrase = "";
  totp = "";
  custom_ip = or_else p.custom_ip "";
  remember = p.has_saved_password || p.has_saved_passphrase;
  busy = false;
  error = "";
}

abbrev is_tap : DevType → Bool
is_tap tap = true
is_tap tun = false

abbrev needs_ip : OpenVpnProfileView → Bool
needs_ip p = is_tap p.dev_type && p.allow_custom_ip

abbrev given : Option String → String → String
given none s = s
given (some t) s = if truthy t then t else s

-- `autofill`
abbrev autofill : OpenVpnProfileView → String
autofill p = given p.autofill_name p.name

abbrev is_text : String → Option String → Bool
is_text s none = false
is_text s (some t) = t == s

-- The inputs that can have the cursor when the form opens.
pub data Input : Type 0 where
  username_input passphrase_input totp_input : Input

module _ (p : OpenVpnProfileView) (last_error : Option String) where
  unfoldable ask_passphrase : Bool
  ask_passphrase = p.key_encrypted || p.has_saved_passphrase || is_key_error last_error

  unfoldable passphrase_saved : Bool
  passphrase_saved = p.has_saved_passphrase && not (is_text "key_passphrase_wrong" last_error)

  unfoldable need_passphrase : Bool
  unfolding ask_passphrase passphrase_saved
  need_passphrase = ask_passphrase && not passphrase_saved

  unfoldable creds_ready : Bool
  creds_ready =
      not p.auth_user_pass || (truthy (or_else p.remembered_user "") && p.has_saved_password)

  -- `autoFocus` of the username, of the passphrase and of the code; where two inputs have it, the
  -- later one has the cursor.
  unfoldable focus_passphrase : Bool
  unfolding creds_ready need_passphrase
  focus_passphrase = creds_ready && need_passphrase

  unfoldable focus_totp : Bool
  unfolding creds_ready need_passphrase
  focus_totp = p.requires_totp && creds_ready && not need_passphrase

  unfoldable focus_username : Bool
  unfolding focus_totp
  focus_username = p.auth_user_pass && not focus_totp

  -- Where the cursor stands when the form opens.
  abbrev cursor : Option Input
  unfolding focus_username focus_passphrase focus_totp
  cursor =
      if focus_totp
      then some totp_input
      else if focus_passphrase
      then some passphrase_input
      else if focus_username
      then some username_input
      else none

pub record FormApi (W : Type 0) : Type 0 where
  pub connect :
      (id : String)
      → Source
      → (username password totp custom_ip passphrase : String) → (remember : Bool)
      → Async (Form × W) (Unit {0})
  pub focus_passphrase : Async (Form × W) (Unit {0})
  pub focus_totp : Async (Form × W) (Unit {0})
  pub on_done : Async (Form × W) (Unit {0})
  pub trim : String → String

abbrev start : Form → Form
start f = record f { busy = true; error = "" }

abbrev fail : Thrown → Form → Form
fail e f = record f { error = message_of e }

abbrev stop : Form → Form
stop f = record f { busy = false }

-- What is still to be typed.
data Missing : Type 0 where
  nothing passphrase code : Missing

unfoldable missing : (trim : String → String) → OpenVpnProfileView → Option String → Form → Missing
unfolding need_passphrase
missing trim p last_error f =
    if need_passphrase p last_error && not (truthy f.passphrase)
    then passphrase
    else if p.requires_totp && not (truthy (trim f.totp))
    then code
    else nothing

module _ {W : Type 0} (api : FormApi W) (p : OpenVpnProfileView) where
  -- The call of the service, of the form as it was drawn.
  unfoldable send : Form → Async (Form × W) (Unit {0})
  send f = do
    set start
    catch
        (do
          api.connect p.id p.source f.username f.password f.totp f.custom_ip f.passphrase f.remember
          api.on_done)
        λ e. set (fail e)
    set stop

  abbrev answer : Missing → Form → Async (Form × W) (Unit {0})
  answer nothing f = send f
  answer passphrase f = api.focus_passphrase
  answer code f = api.focus_totp

  abbrev submit : (last_error : Option String) → Form → Async (Form × W) (Unit {0})
  unfolding missing send
  submit last_error f = answer (missing api.trim p last_error f) f

-- The form that imports a file.
pub record Import : Type 0 where
  pub name : String
  pub config : String
  pub requires_totp : Bool
  pub busy : Bool
  pub error : String

-- A file was chosen: `bare` is its name without `.ovpn`.
abbrev choose_file : (bare content : String) → Import → Import
choose_file bare content i = record i {
  config = content;
  name = if truthy i.name then i.name else bare;
}

module _ {W : Type 0}
    (import_profile : (name config : String) → Bool → Async (Import × W) (Unit {0}))
    (on_done : Async (Import × W) (Unit {0})) (choose default_name : String) where
  abbrev submit_import : Import → Async (Import × W) (Unit {0})
  submit_import i =
      if truthy i.config
      then (do
        set (λ (i : Import). record i { busy = true; error = "" })
        catch
            (do
              import_profile (if truthy i.name then i.name else default_name) i.config
                  i.requires_totp
              on_done)
            λ e. set (λ (i : Import). record i { error = message_of e })
        set (λ (i : Import). record i { busy = false }))
      else set (λ (i : Import). record i { error = choose })
