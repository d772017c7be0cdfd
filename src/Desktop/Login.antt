-- ===== src/Desktop/Login.antt =====
-- client/frontend/src/components/LoginSheet.tsx: the sign-in sheet, with its second factor: a code,
-- or a push request that is asked about every two seconds. The answer of a poll arrives when the
-- service sends it, whatever the user has done since: what happens before it is part of what `poll`
-- does to the state.
pub mod Polling
pub mod Answers
use pro_identity_access.Base.{
  ℕ, String, Bool, true, false, Option, none, some, truthy, nat_eq, ◌&&◌, ◌||◌, ◌==◌, if◌then◌else◌,
}
use pro_identity_access.Async.{Async, Thrown, message_of, pure, catch, set, get, ◌>>=◌, ◌>>◌}
use pro_identity_access.Desktop.Managed.{LoginReply}

pub data Mode : Type 0 where
  totp push : Mode

pub record Login : Type 0 where
  pub username : String
  pub password : String
  pub code : String  -- `totp`
  pub need_totp : Bool
  pub show_pw : Bool
  pub push_enabled : Bool
  pub push_request_id : Option String
  pub push_status : String
  pub mode : Mode
  pub push_loading : Bool
  pub push_error : String
  pub timer : Option String  -- `pollRef`: the request that the running timer asks about

abbrev pub State : Type 0 → Type 0
State W = Login × W

-- What the sheet uses of its surroundings. `is_cleaned_up` says that the effect that signs in was
-- cleaned up, as React does when what the effect depends on changes.
pub record LoginApi (W : Type 0) : Type 0 where
  pub login : (username password totp_code : String) → Async (State W) LoginReply
  pub login_with_push : (username password request_id : String) → Async (State W) (Unit {0})
  pub poll_push_auth : (request_id : String) → Async (State W) String
  pub clear_error : Async (State W) (Unit {0})
  pub on_logged_in : Async (State W) (Unit {0})
  pub on_close : Async (State W) (Unit {0})
  pub is_cleaned_up : Async (State W) Bool
  pub saved_username : String  -- `settings.username || ''`
  pub trim : String → String  -- JavaScript's `trim`

unfoldable pub stop_polling : Login → Login
stop_polling l = record l { timer = none }

-- The sheet opens.
unfoldable reset : (saved_username : String) → Login → Login
reset saved_username l = record {
  username = saved_username;
  password = "";
  code = "";
  need_totp = false;
  show_pw = false;
  push_enabled = false;
  push_request_id = none;
  push_status = "idle";
  mode = totp;
  push_loading = false;
  push_error = "";
  timer = none;
}

unfoldable start_polling : (request_id : String) → Login → Login
start_polling request_id l = record l { push_status = "pending"; timer = some request_id }

abbrev pub is_final : String → Bool
is_final status = status == "approved" || status == "denied" || status == "expired"

-- The answer to a poll.
unfoldable pub answered : (status : String) → Login → Login
unfolding stop_polling
answered status l = if is_final status then record (stop_polling l) { push_status = status } else l

-- The link below a pending request: enter a code instead.
unfoldable pub enter_code : Login → Login
unfolding stop_polling
enter_code l = record (stop_polling l) { push_error = ""; mode = totp }

abbrev if_given : Option String → Option String
if_given none = none
if_given (some id) = if truthy id then some id else none

-- The request that the effect on `pushStatus` and `pushRequestId` signs in with.
unfoldable pub wants_login : Login → Option String
wants_login l = if l.push_status == "approved" then if_given l.push_request_id else none

unfoldable pub ask_second_factor : LoginReply → Login → Login
unfolding start_polling
ask_second_factor r l =
    let asked : Login = record l { need_totp = true } in
    if r.push_auth_enabled && truthy r.push_request_id
    then start_polling r.push_request_id (record asked {
      push_enabled = true;
      push_request_id = some r.push_request_id;
      mode = push;
    })
    else asked

abbrev is_code_mode : Login → Bool
is_code_mode l = l.need_totp && (elim l.mode [ totp ↦ true | push ↦ false ])

unfoldable pub poll_again : (request_id : String) → Login → Login
unfolding start_polling
poll_again request_id l =
    if truthy request_id
    then start_polling request_id (record l { push_request_id = some request_id })
    else l

module _ {W : Type 0} (api : LoginApi W) where
  abbrev pub signed_in : Async (State W) (Unit {0})
  signed_in = do api.on_logged_in; api.on_close

  unfoldable pub open_sheet : Async (State W) (Unit {0})
  unfolding reset
  open_sheet = do set (reset api.saved_username); api.clear_error

  -- Cancel, and the sheet's own close button.
  unfoldable pub cancel : Async (State W) (Unit {0})
  unfolding stop_polling
  cancel = do set stop_polling; api.on_close

  -- One turn of the timer for a request.
  unfoldable pub poll : (request_id : String) → Async (State W) (Unit {0})
  unfolding answered
  poll request_id =
      catch (do status ← api.poll_push_auth request_id; set (answered status)) λ _. pure tt

  unfoldable pub unless_cleaned_up : Async (State W) (Unit {0}) → Async (State W) (Unit {0})
  unless_cleaned_up m = do stale ← api.is_cleaned_up; if stale then pure tt else m

  -- The effect, run for the request that `wants_login` names.
  unfoldable pub sign_in_approved : (request_id : String) → Async (State W) (Unit {0})
  unfolding unless_cleaned_up
  sign_in_approved request_id = do
    set (λ l. record l { push_loading = true })
    l ← get
    catch (do api.login_with_push l.username l.password request_id; unless_cleaned_up signed_in)
        λ e. unless_cleaned_up (set (λ l. record l { push_error = message_of e }))
    unless_cleaned_up (set (λ l. record l { push_loading = false }))

  unfoldable pub handle_initial_login : Async (State W) (Unit {0})
  unfolding ask_second_factor
  handle_initial_login = do
    l ← get
    api.clear_error
    catch
        (do
          r ← api.login (api.trim l.username) l.password (if is_code_mode l then l.code else "")
          if r.require_totp then set (ask_second_factor r) else signed_in)
        λ _. pure tt

  unfoldable pub handle_totp_submit : Async (State W) (Unit {0})
  handle_totp_submit = do
    l ← get
    api.clear_error
    catch
        (do
          r ← api.login (api.trim l.username) l.password l.code
          if r.require_totp then pure tt else signed_in)
        λ _. pure tt

  unfoldable pub retry_push : Async (State W) (Unit {0})
  unfolding poll_again
  retry_push = do
    l ← get
    api.clear_error
    set (λ l. record l { push_error = "" })
    catch (do r ← api.login (api.trim l.username) l.password ""; set (poll_again r.push_request_id))
        λ _. pure tt

  -- The link below the code: use a push request instead.
  unfoldable pub use_push : Async (State W) (Unit {0})
  unfolding retry_push
  use_push = do set (λ l. record l { push_error = ""; code = ""; mode = push }); retry_push
