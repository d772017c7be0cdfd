-- ===== src/Desktop/TotpPrompt.antt =====
-- client/frontend/src/components/TotpPromptSheet.tsx: the sheet that asks for the second factor of a
-- connection, a code of six digits or the approval of a push request that is asked about every two
-- seconds. A request whose effect was cleaned up is not asked about any more.
pub mod Code
use Prim.Native.Char.{Char, code}
use Prim.Native.String
use Prim.Native.String.{[], ◌∷◌}
use pro_identity_access.Base.{
  ℕ, zero, suc, String, Bool, true, false, Option, none, some, truthy, nat_eq, leb, not, or_else,
  ◌&&◌, ◌||◌, ◌==◌, if◌then◌else◌,
}
use pro_identity_access.Async.{
  Async, Thrown, js_error, plain, message_of, pure, catch, set, get, ◌>>=◌, ◌>>◌,
}

pub data Mode : Type 0 where
  totp push : Mode

pub record Prompt : Type 0 where
  pub mode : Mode
  pub entered : String  -- `code`
  pub loading : Bool
  pub error : String
  pub push_status : String
  pub timer : Option String  -- `pollRef`: the request that the running timer asks about

abbrev pub State : Type 0 → Type 0
State W = Prompt × W

-- What the sheet uses of its surroundings. `is_cleaned_up` says that the effect that polls was
-- cleaned up: the sheet was closed, or left the push mode.
pub record PromptApi (W : Type 0) : Type 0 where
  pub create_push_auth : (context : String) → Async (State W) String  -- the id of the request
  pub poll_push_auth : (request_id : String) → Async (State W) String
  pub is_cleaned_up : Async (State W) Bool
  pub on_submit : (code : String) → Async (State W) (Unit {0})
  pub on_push_approved : (request_id : String) → Async (State W) (Unit {0})
  pub on_cancel : Async (State W) (Unit {0})
  pub on_switch_to_code : Async (State W) (Unit {0})
  pub includes : (text part : String) → Bool
  pub request_denied : String  -- tr('totp.requestDenied'), and so on
  pub request_expired : String
  pub push_create_failed : String
  pub invalid_code : String

abbrev pub is_digit : Char → Bool
is_digit c = leb b'0' (code c) && leb (code c) b'9'

-- `text.replace(/\D/g, '')`
unfoldable pub digits_of : String → String
digits_of [] = []
digits_of (c ∷ s) = let rest = digits_of s in if is_digit c then c ∷ rest else rest

-- `text.slice(0, n)` and `text.length`, of digits
unfoldable pub take_chars : ℕ → String → String
take_chars zero s = []
take_chars (suc n) [] = []
take_chars (suc n) (c ∷ s) = c ∷ take_chars n s

unfoldable pub count : String → ℕ
count [] = 0
count (c ∷ s) = suc (count s)

-- What is typed into the field.
unfoldable pub enter : (typed : String) → Prompt → Prompt
unfolding digits_of take_chars
enter typed p = record p { entered = take_chars 6 (digits_of typed) }

-- The sheet opens.
unfoldable pub reset : (push_auth_enabled : Bool) → Prompt → Prompt
reset push_auth_enabled p = record {
  mode = if push_auth_enabled then push else totp;
  entered = "";
  loading = false;
  error = "";
  push_status = "pending";
  timer = none;
}

abbrev pub stop_polling : Prompt → Prompt
stop_polling p = record p { timer = none }

-- The link below the code: use a push request instead.
unfoldable pub use_push : Prompt → Prompt
use_push p = record p { error = ""; entered = ""; mode = push }

abbrev is_push : Mode → Bool
is_push push = true
is_push totp = false

abbrev is_given : Option String → Bool
is_given none = false
is_given (some s) = true

-- Does the sheet poll by itself? Not while its parent hands it a status to show.
abbrev polls_itself : (is_open : Bool) → (external_status : Option String) → Prompt → Bool
polls_itself is_open external_status p = is_open && is_push p.mode && not (is_given external_status)

abbrev shown_status : (external_status : Option String) → Prompt → String
shown_status external_status p = or_else external_status p.push_status

-- `e?.message ?? fallback`
abbrev message_or : Thrown → (fallback : String) → String
message_or (js_error name message) fallback = message
message_or (plain s) fallback = fallback

-- The text above the request: `serverName ? ... : ...`.
abbrev context : Option String → String
context none = "VPN connection"
context (some name) = if truthy name then String.◌++◌ "Connect to " name else "VPN connection"

module _ {W : Type 0} (api : PromptApi W) where
  abbrev pub unless_cleaned_up : Async (State W) (Unit {0}) → Async (State W) (Unit {0})
  unless_cleaned_up m = do stale ← api.is_cleaned_up; if stale then pure tt else m

  -- What the answer to a poll means.
  unfoldable pub react : (request_id status : String) → Async (State W) (Unit {0})
  react request_id status = do
    set (λ p. record p { push_status = status })
    if status == "approved"
        then (do
          set (λ p. record (stop_polling p) { loading = true })
          catch (api.on_push_approved request_id)
              (λ e. set (λ p. record p { error = message_of e }))
          set (λ p. record p { loading = false }))
        else if status == "denied" || status == "expired"
        then set (λ p. record (stop_polling p) {
          error = if status == "denied" then api.request_denied else api.request_expired;
        })
        else pure tt

  -- One turn of the timer for a request.
  unfoldable pub poll : (request_id : String) → Async (State W) (Unit {0})
  unfolding react
  poll request_id =
      catch (do status ← api.poll_push_auth request_id; unless_cleaned_up (react request_id status))
        λ _. pure tt

  unfoldable pub start_push : (server_name : Option String) → Async (State W) (Unit {0})
  start_push server_name =
      catch
        (do
          request_id ← api.create_push_auth (context server_name)
          unless_cleaned_up
              (set (λ p. record p { push_status = "pending"; timer = some request_id })))
        λ e. unless_cleaned_up (set (λ p. record p { error = message_or e api.push_create_failed }))

  unfoldable pub submit_totp : Async (State W) (Unit {0})
  unfolding count
  submit_totp = do
    p ← get
    if nat_eq (count p.entered) 6
        then (do
          set (λ p. record p { loading = true; error = "" })
          catch (api.on_submit p.entered) λ e. set (λ p. record p {
            error =
                if api.includes (message_of e) "totp" || api.includes (message_of e) "2FA"
                then api.invalid_code
                else message_of e;
            entered = "";
          })
          set (λ p. record p { loading = false }))
        else pure tt

  -- Cancel; the sheet's own close button does nothing while it loads.
  unfoldable pub cancel : Async (State W) (Unit {0})
  cancel = do set stop_polling; api.on_cancel

  unfoldable pub close : Async (State W) (Unit {0})
  unfolding cancel
  close = do p ← get; if p.loading then pure tt else cancel

  unfoldable pub switch_to_code : Async (State W) (Unit {0})
  switch_to_code = do
    set (λ p. record (stop_polling p) { error = ""; mode = totp })
    api.on_switch_to_code
