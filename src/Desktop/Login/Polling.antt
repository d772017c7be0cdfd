-- ===== src/Desktop/Login/Polling.antt =====
-- The timer of the sign-in sheet and what it asks about.
use pro_identity_access.Base.{
  String, ◌≡◌, refl, Option, none, some, truthy, Bool-cases, inl, inr, ◌&&◌,
}
use pro_identity_access.Async.{Async, set}
use pro_identity_access.Async.Keeps.{
  Keeps, On, Keeps-bind, Keeps-set, Keeps-get, Keeps-catch, Keeps-if, Keeps-pure, keeps_rules,
}
use pro_identity_access.Desktop.Managed.{LoginReply}
use pro_identity_access.Desktop.Login.{
  Login, State, LoginApi, answered, is_final, enter_code, ask_second_factor, poll_again, open_sheet,
  signed_in, unless_cleaned_up, cancel, poll, sign_in_approved, handle_initial_login,
  handle_totp_submit, retry_push, use_push,
}

abbrev AsksAbout : (timer request : Option String) → (status : String) → Type 0
AsksAbout none request status = Unit
AsksAbout (some r) request status = (request ≡ some r) × (status ≡ "pending")

-- A timer runs only for the request of the sheet, and only while this is pending.
abbrev pub IsPolling : Login → Type 0
IsPolling l = AsksAbout l.timer l.push_request_id l.push_status

pub IsPolling-answered : (status : String) (l : Login) → IsPolling l → IsPolling (answered status l)
unfolding answered
IsPolling-answered status l h = elim (Bool-cases (is_final status)) [
  | inl k ↦ rw k tt
  | inr k ↦ rw k h
]

pub IsPolling-ask_second_factor :
    (r : LoginReply) (l : Login) → IsPolling l → IsPolling (ask_second_factor r l)
unfolding ask_second_factor
IsPolling-ask_second_factor r l h =
    elim (Bool-cases (r.push_auth_enabled && truthy r.push_request_id)) [
      | inl k ↦ rw k (refl, refl)
      | inr k ↦ rw k h
    ]

pub IsPolling-poll_again :
    (request_id : String) (l : Login) → IsPolling l → IsPolling (poll_again request_id l)
unfolding poll_again
IsPolling-poll_again request_id l h = elim (Bool-cases (truthy request_id)) [
  | inl k ↦ rw k (refl, refl)
  | inr k ↦ rw k h
]

pub ruleset polling_rules =
    (keeps_rules, IsPolling-answered, IsPolling-ask_second_factor, IsPolling-poll_again)

-- The calls of the surroundings keep what the sheet keeps: they change its state only by its own
-- operations.
pub record IsTame {W : Type 0} (api : LoginApi W) : Type 0 where
  pub login : (u p c : String) → Keeps (On IsPolling) (api.login u p c)
  pub login_with_push : (u p r : String) → Keeps (On IsPolling) (api.login_with_push u p r)
  pub poll_push_auth : (r : String) → Keeps (On IsPolling) (api.poll_push_auth r)
  pub clear_error : Keeps (On IsPolling) api.clear_error
  pub on_logged_in : Keeps (On IsPolling) api.on_logged_in
  pub on_close : Keeps (On IsPolling) api.on_close
  pub is_cleaned_up : Keeps (On IsPolling) api.is_cleaned_up

module _ {W : Type 0} (api : LoginApi W) (tame : IsTame api) where
  abbrev Safe : Async (State W) (Unit {0}) → Type 0
  Safe m = Keeps (On IsPolling) m

  open_sheet-IsPolling : Safe (open_sheet api)
  unfolding open_sheet
  open_sheet-IsPolling = Keeps-bind _ _ (Keeps-set _ (λ _ _. tt)) (λ _. tame.clear_error)

  cancel-IsPolling : Safe (cancel api)
  unfolding cancel
  cancel-IsPolling = Keeps-bind _ _ (Keeps-set _ (λ _ _. tt)) (λ _. tame.on_close)

  poll-IsPolling : (r : String) → Safe (poll api r)
  unfolding poll
  poll-IsPolling r = search (keeps_rules, IsPolling-answered, tame.poll_push_auth)

  signed_in-IsPolling : Safe (signed_in api)
  signed_in-IsPolling = search (keeps_rules, tame.on_logged_in, tame.on_close)

  unless_stale : (m : Async (State W) (Unit {0})) → Safe m → Safe (unless_cleaned_up api m)
  unfolding unless_cleaned_up
  unless_stale m h = Keeps-bind _ _ tame.is_cleaned_up λ b. Keeps-if b _ _ (Keeps-pure tt) h

  sign_in_approved-IsPolling : (r : String) → Safe (sign_in_approved api r)
  unfolding sign_in_approved
  sign_in_approved-IsPolling r = Keeps-bind _ _ (Keeps-set _ (λ _ h. h)) λ _.
      Keeps-bind _ _ Keeps-get λ l.
        Keeps-bind _ _
          (Keeps-catch _ _
            (Keeps-bind _ _ (tame.login_with_push l.username l.password r)
              (λ _. unless_stale _ signed_in-IsPolling))
            λ e. unless_stale _ (Keeps-set _ (λ _ h. h)))
          λ _. unless_stale _ (Keeps-set _ (λ _ h. h))

  handle_initial_login-IsPolling : Safe (handle_initial_login api)
  unfolding handle_initial_login
  handle_initial_login-IsPolling = Keeps-bind _ _ Keeps-get λ l.
      Keeps-bind _ _ tame.clear_error λ _.
        Keeps-catch _ _
          (Keeps-bind _ _ (tame.login _ _ _) λ r.
            Keeps-if r.require_totp _ _ (Keeps-set _ (IsPolling-ask_second_factor r))
              signed_in-IsPolling)
          (λ _. Keeps-pure tt)

  handle_totp_submit-IsPolling : Safe (handle_totp_submit api)
  unfolding handle_totp_submit
  handle_totp_submit-IsPolling = Keeps-bind _ _ Keeps-get λ l. Keeps-bind _ _ tame.clear_error λ _.
      Keeps-catch _ _
        (Keeps-bind _ _ (tame.login _ _ _)
          λ r. Keeps-if r.require_totp _ _ (Keeps-pure tt) signed_in-IsPolling)
        (λ _. Keeps-pure tt)

  retry_push-IsPolling : Safe (retry_push api)
  unfolding retry_push
  retry_push-IsPolling = Keeps-bind _ _ Keeps-get λ l. Keeps-bind _ _ tame.clear_error λ _.
      Keeps-bind _ _ (Keeps-set _ (λ _ h. h)) λ _.
        Keeps-catch _ _
          (Keeps-bind _ _ (tame.login _ _ _)
            λ r. Keeps-set _ (IsPolling-poll_again r.push_request_id))
          (λ _. Keeps-pure tt)

  use_push-IsPolling : Safe (use_push api)
  unfolding use_push
  use_push-IsPolling = Keeps-bind _ _ (Keeps-set _ (λ _ h. h)) (λ _. retry_push-IsPolling)

  -- If the calls of the surroundings keep this too, no operation of the sheet ends with a timer for
  -- another request than the sheet's own, or for one that is no longer pending.
  pub sheet-IsPolling :
      Keeps (On IsPolling) (open_sheet api)
      × Keeps (On IsPolling) (cancel api)
      × ((r : String) → Keeps (On IsPolling) (poll api r))
      × ((r : String) → Keeps (On IsPolling) (sign_in_approved api r))
      × Keeps (On IsPolling) (handle_initial_login api)
      × Keeps (On IsPolling) (handle_totp_submit api)
      × Keeps (On IsPolling) (retry_push api)
      × Keeps (On IsPolling) (use_push api)
      × Keeps (On IsPolling) (set {W = W} enter_code)
  sheet-IsPolling = (
    open_sheet-IsPolling,
    cancel-IsPolling,
    poll-IsPolling,
    sign_in_approved-IsPolling,
    handle_initial_login-IsPolling,
    handle_totp_submit-IsPolling,
    retry_push-IsPolling,
    use_push-IsPolling,
    Keeps-set enter_code (λ l h. unfold enter_code in tt),
  )
