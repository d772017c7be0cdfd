-- ===== src/Desktop/Wizard.antt =====
-- client/frontend/src/components/SetupWizard.tsx: the step of the wizard that signs in, as a sequence
-- of what the user does and what the service answers. `polls` and `sign_ins` list the requests that
-- were asked about and not answered yet, and those that a sign-in was started with.
pub mod Once
pub mod Stale
pub mod Polling
pub mod Steps
use pro_identity_access.Base.{
  ℕ, zero, suc, String, Bool, true, false, not, ◌&&◌, ◌||◌, Option, none, some, List, [], ◌∷◌, ◌++◌,
  truthy, ◌==◌, if◌then◌else◌,
}
use pro_identity_access.Async.{Thrown, message_of}
use pro_identity_access.Desktop.Managed.{LoginReply}

pub data Mode : Type 0 where
  credentials push totp : Mode

-- What the effect depends on, of what changes.
pub record Deps : Type 0 where
  pub status : String
  pub request_id : String
  pub username : String
  pub password : String

pub record Wizard : Type 0 where
  pub username : String
  pub password : String
  pub totp_code : String
  pub mode : Mode
  pub push_request_id : String
  pub push_status : String
  pub push_error : String
  pub timer : Option String  -- `pollRef`: the request that the timer asks about
  pub completing : Bool  -- `completingPushRef`
  pub seen : Deps  -- when the effect last ran
  pub polls : List String
  pub sign_ins : List String

abbrev pub initial : Wizard
initial = record {
  username = "";
  password = "";
  totp_code = "";
  mode = credentials;
  push_request_id = "";
  push_status = "idle";
  push_error = "";
  timer = none;
  completing = false;
  seen = record { status = "idle"; request_id = ""; username = ""; password = "" };
  polls = [];
  sign_ins = [];
}

pub data Event : Type 0 where
  typed_username typed_password typed_code : String → Event
  submitted : Event  -- the form, and the clearing of its errors
  replied : (with_code : Bool) → LoginReply → Event  -- to the form; whether it held a code
  retried : LoginReply → Event  -- the answer after "Try again"
  retry_started : Event
  enter_code : Event
  changed_account : Event
  ticked : Event  -- the timer
  polled : ℕ → (status : String) → Event  -- an answer to the poll with this number
  poll_failed : ℕ → Event
  sign_in_failed : Thrown → Event

unfoldable pub stop_polling : Wizard → Wizard
stop_polling w = record w { timer = none }

unfoldable pub start_polling : (request_id : String) → Wizard → Wizard
start_polling request_id w = record w {
  push_error = "";
  push_status = "pending";
  polls = w.polls ++ request_id ∷ [];
  timer = some request_id;
}

unfoldable pub reset_to_credentials : Wizard → Wizard
unfolding stop_polling
reset_to_credentials w = record (stop_polling w) {
  completing = false;
  mode = credentials;
  push_request_id = "";
  push_status = "idle";
  push_error = "";
  totp_code = "";
}

-- The service created a push request.
abbrev pub is_push : LoginReply → Bool
is_push r = r.require_totp && r.push_auth_enabled && truthy r.push_request_id

abbrev pub ask_push : (request_id : String) → Wizard → Wizard
ask_push request_id w =
    start_polling request_id (record w { push_request_id = request_id; mode = push })

abbrev pub ask_code : LoginReply → Wizard → Wizard
ask_code r w = if r.require_totp then record w { mode = totp } else w

abbrev pub is_final : String → Bool
is_final status = status == "approved" || status == "denied" || status == "expired"

abbrev pub remove_at {ℓ} : {A : Type ℓ} → ℕ → List A → List A
remove_at i [] = []
remove_at zero (x ∷ xs) = xs
remove_at (suc i) (x ∷ xs) = x ∷ remove_at i xs

abbrev pub answered : (status : String) → Wizard → Wizard
answered status w = if is_final status then record (stop_polling w) { push_status = status } else w

abbrev tick : Option String → Wizard → Wizard
tick none w = w
tick (some request_id) w = record w { polls = w.polls ++ request_id ∷ [] }

-- The handlers, before the effect. What ends a sign-in well leaves the wizard.
unfoldable pub handle : Event → Wizard → Wizard
unfolding stop_polling start_polling reset_to_credentials
handle (typed_username s) w = record w { username = s }
handle (typed_password s) w = record w { password = s }
handle (typed_code s) w = record w { totp_code = s }
handle submitted w = record w { push_error = "" }
handle (replied with_code r) w =
    if not with_code && is_push r then ask_push r.push_request_id w else ask_code r w
handle (retried r) w = if is_push r then ask_push r.push_request_id w else ask_code r w
handle retry_started w = record w { push_error = ""; completing = false }
handle enter_code w = record (stop_polling w) { push_error = ""; mode = totp }
handle changed_account w = reset_to_credentials w
handle ticked w = tick w.timer w
handle (polled i status) w = answered status (record w { polls = remove_at i w.polls })
handle (poll_failed i) w = record w { polls = remove_at i w.polls }
handle (sign_in_failed e) w = record w { completing = false; push_error = message_of e }

abbrev deps : Wizard → Deps
deps w = record {
  status = w.push_status;
  request_id = w.push_request_id;
  username = w.username;
  password = w.password;
}

abbrev pub same_deps : Deps → Deps → Bool
same_deps a b =
    a.status == b.status
    && a.request_id == b.request_id
    && a.username == b.username
    && a.password == b.password

abbrev sign_in : Wizard → Wizard
sign_in w =
    if w.push_status == "approved" && truthy w.push_request_id && not w.completing
    then record w { completing = true; sign_ins = w.sign_ins ++ w.push_request_id ∷ [] }
    else w

-- The effect that signs in; it runs where what it depends on changed.
unfoldable pub effect : Wizard → Wizard
effect w = if same_deps (deps w) w.seen then w else sign_in (record w { seen = deps w })

unfoldable pub step : Event → Wizard → Wizard
unfolding handle effect
step e w = effect (handle e w)

unfoldable pub run : List Event → Wizard → Wizard
unfolding step
run [] w = w
run (e ∷ es) w = run es (step e w)
