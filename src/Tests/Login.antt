-- ===== src/Tests/Login.antt =====
-- The sign-in sheet, with a request that is approved after the user cancelled.
use pro_identity_access.Base.{Option, Bool, String, true, false, ◌≡◌, refl, none, some}
use pro_identity_access.Async.{Async, threw, plain, ok, set}
use pro_identity_access.Async.Keeps.{Keeps, On}
use pro_identity_access.Desktop.Login.{
  Login, State, LoginApi, push, stop_polling, poll, poll_again, wants_login, open_sheet, cancel,
  sign_in_approved, handle_initial_login, handle_totp_submit, retry_push, use_push, enter_code,
}
use pro_identity_access.Desktop.Login.Polling.{IsPolling, IsTame, sheet-IsPolling}
use pro_identity_access.Desktop.Login.Answers.{poll_cancelled, poll_stale}
use pro_identity_access.Desktop.TotpPrompt
use pro_identity_access.Desktop.TotpPrompt.{
  PromptApi, reset, enter, start_push, submit_totp, close, switch_to_code, digits_of,
}
use pro_identity_access.Desktop.TotpPrompt.Code.{IsCode, prompt-IsCode}

abbrev asking : Login
asking = record {
  username = "ann";
  password = "secret";
  code = "";
  need_totp = true;
  show_pw = false;
  push_enabled = true;
  push_request_id = some "r1";
  push_status = "pending";
  mode = push;
  push_loading = false;
  push_error = "";
  timer = some "r1";
}

abbrev gives : {A : Type 0} → A → Async (State (Unit {0})) A
gives a s = (ok a, s)

abbrev api : LoginApi (Unit {0})
api = record {
  login = λ _ _ _.
      gives (record { require_totp = true; push_auth_enabled = true; push_request_id = "r2" });
  login_with_push = λ _ _ _. gives tt;
  poll_push_auth = λ _ (l, w). (ok "approved", (stop_polling l, w));
  clear_error = gives tt;
  on_logged_in = gives tt;
  on_close = gives tt;
  is_cleaned_up = gives false;
  saved_username = "ann";
  trim = λ s. s;
}

abbrev gives-Keeps : {A : Type 0} (a : A) → Keeps (On IsPolling) (gives a)
gives-Keeps a = record { at = λ s h. h }

tame : IsTame api
tame = record {
  login = λ _ _ _. gives-Keeps _;
  login_with_push = λ _ _ _. gives-Keeps tt;
  poll_push_auth = λ _. record { at = λ s h. record { holds = unfold stop_polling in tt } };
  clear_error = gives-Keeps tt;
  on_logged_in = gives-Keeps tt;
  on_close = gives-Keeps tt;
  is_cleaned_up = gives-Keeps false;
}

sheet-IsPolling_example :
    Keeps (On IsPolling) (open_sheet api)
    × Keeps (On IsPolling) (cancel api)
    × ((r : String) → Keeps (On IsPolling) (poll api r))
    × ((r : String) → Keeps (On IsPolling) (sign_in_approved api r))
    × Keeps (On IsPolling) (handle_initial_login api)
    × Keeps (On IsPolling) (handle_totp_submit api)
    × Keeps (On IsPolling) (retry_push api)
    × Keeps (On IsPolling) (use_push api)
    × Keeps (On IsPolling) (set {W = Unit {0}} enter_code)
sheet-IsPolling_example = sheet-IsPolling api tame

abbrev start : State (Unit {0})
start = (asking, tt)

abbrev answer : String
answer = "approved"

-- A service that decides at once.
abbrev prompt : LoginApi (Unit {0})
prompt = record api { poll_push_auth = λ _. gives "approved" }

-- The user cancels while the poll waits, and the answer is that the request is approved.
abbrev late : LoginApi (Unit {0})
late = record api { poll_push_auth = λ _ s. (ok "approved", (cancel api s).1) }

poll_cancelled_example :
    ((cancel late start).1.0.timer ≡ none) × (wants_login (poll late "r1" start).1.0 ≡ some "r1")
poll_cancelled_example =
    poll_cancelled late "r1" asking tt refl refl (λ s. refl) (unfold cancel in refl)

-- The request "r0" expired, and its successor is asked for while its last poll waits.
abbrev slow : LoginApi (Unit {0})
slow = record api { poll_push_auth = λ _ (l, w). (ok "expired", (poll_again "r1" l, w)) }

poll_stale_example :
    let t = (poll slow "r0" start).1.0 in
    (t.timer ≡ none) × (t.push_status ≡ "expired") × (t.push_request_id ≡ some "r1")
poll_stale_example = poll_stale slow "r0" "r1" "expired" asking tt tt refl refl refl

-- The sheet that asks for a code, with a service that refuses it.
abbrev code_api : PromptApi (Unit {0})
code_api = record {
  create_push_auth = λ _ s. (ok "r1", s);
  poll_push_auth = λ _ s. (ok "pending", s);
  is_cleaned_up = λ s. (ok false, s);
  on_submit = λ _ s. (threw (plain "totp"), s);
  on_push_approved = λ _ s. (ok tt, s);
  on_cancel = λ s. (ok tt, s);
  on_switch_to_code = λ s. (ok tt, s);
  includes = λ _ _. true;
  request_denied = "denied";
  request_expired = "expired";
  push_create_failed = "failed";
  invalid_code = "invalid";
}

prompt-IsCode_example :
    ((b : Bool) → Keeps (On IsCode) (set {W = Unit {0}} (reset b)))
    × ((typed : String) → Keeps (On IsCode) (set {W = Unit {0}} (enter typed)))
    × Keeps (On IsCode) (set {W = Unit {0}} TotpPrompt.use_push)
    × ((r : String) → Keeps (On IsCode) (TotpPrompt.poll code_api r))
    × ((name : Option String) → Keeps (On IsCode) (start_push code_api name))
    × Keeps (On IsCode) (submit_totp code_api)
    × Keeps (On IsCode) (TotpPrompt.cancel code_api)
    × Keeps (On IsCode) (close code_api)
    × Keeps (On IsCode) (switch_to_code code_api)
prompt-IsCode_example = prompt-IsCode code_api (record {
  create_push_auth = λ _. record { at = λ s h. h };
  poll_push_auth = λ _. record { at = λ s h. h };
  is_cleaned_up = record { at = λ s h. h };
  on_submit = λ _. record { at = λ s h. h };
  on_push_approved = λ _. record { at = λ s h. h };
  on_cancel = record { at = λ s h. h };
  on_switch_to_code = record { at = λ s h. h };
})

typed_code : digits_of "12 34-567" ≡ "1234567"
unfolding digits_of
typed_code = refl
