-- ===== src/Desktop/Login/Answers.antt =====
-- What the answers of the polls come to in the sign-in sheet.
use pro_identity_access.Base.{
  String, true, false, ◌≡◌, refl, sym, ap, ◌∙◌, none, some, truthy, Bool-cases, inl, inr, ◌==◌,
  eq_iff,
}
use pro_identity_access.Async.{ok, catch, ◌>>=◌}
use pro_identity_access.Desktop.Login.{
  Login, State, LoginApi, stop_polling, answered, is_final, poll, poll_again, cancel, wants_login,
}

clash : {x : String} → ¬ (none ≡ some x)
clash h = cc

not_approved : (l : Login) → (l.push_status == "approved") ≡ false → wants_login l ≡ none
unfolding wants_login
not_approved l k = rw k refl

answered-final :
    (status : String) (l : Login)
    → is_final status ≡ true
    → (answered status l).push_status ≡ status
unfolding answered
answered-final status l k = rw k refl

answered-open : (status : String) (l : Login) → is_final status ≡ false → answered status l ≡ l
unfolding answered
answered-open status l k = rw k refl

poll-answered :
    {W : Type 0} (api : LoginApi W) (r status : String) (s u : State W)
    → api.poll_push_auth r s ≡ (ok status, u)
    → (poll api r s).1.0 ≡ answered status u.0
unfolding poll catch ◌>>=◌
poll-answered api r status s u h = rw h refl

wants-approved : (l : Login) (x : String) → wants_login l ≡ some x → l.push_status ≡ "approved"
unfolding wants_login
wants-approved l x h = elim (Bool-cases (l.push_status == "approved")) [
  | inl k ↦ (eq_iff l.push_status "approved").0 k
  | inr k ↦ absurd (clash (sym (not_approved l k) ∙ h))
]

wants-answered :
    (status : String) (l : Login) (x : String)
    → wants_login l ≡ none
    → wants_login (answered status l) ≡ some x
    → status ≡ "approved"
wants-answered status l x idle h = elim (Bool-cases (is_final status)) [
  | inl k ↦ sym (answered-final status l k) ∙ wants-approved (answered status l) x h
  | inr k ↦ absurd (clash (sym idle ∙ sym (ap wants_login (answered-open status l k)) ∙ h))
]

-- A poll makes the sheet sign in, where it did not before, only if the poll was answered that the
-- request is approved.
poll_lem :
    {W : Type 0} (api : LoginApi W) (r status x : String) (s u : State W)
    → api.poll_push_auth r s ≡ (ok status, u)
    → wants_login u.0 ≡ none
    → wants_login (poll api r s).1.0 ≡ some x
    → status ≡ "approved"
poll_lem api r status x s u h idle k =
    wants-answered status u.0 x idle (sym (ap wants_login (poll-answered api r status s u h)) ∙ k)

-- If the user cancels while a poll of a request waits, closing leaves the sheet's own state alone,
-- and the answer is that the request is approved, then the sheet signs in with it all the same,
-- though its timer was stopped.
pub poll_cancelled :
    {W : Type 0} (api : LoginApi W) (r : String) (l : Login) (w : W)
    → truthy r ≡ true
    → l.push_request_id ≡ some r
    → ((s : State W) → (api.on_close s).1.0 ≡ s.0)
    → api.poll_push_auth r (l, w) ≡ (ok "approved", (cancel api (l, w)).1)
    → ((cancel api (l, w)).1.0.timer ≡ none) × (wants_login (poll api r (l, w)).1.0 ≡ some r)
unfolding cancel poll catch ◌>>=◌ wants_login
poll_cancelled api r l w h k quiet q =
    let closed = quiet (stop_polling l, w) in
    (
      ap (λ (x : Login). x.timer) closed,
      rw (q, ap (λ (x : Login). x.push_request_id) closed, k, h) refl,
    )

-- If "Try again" brings a new request, with an id, while a poll of another one waits, a final answer
-- to that poll ends the polling of the new request, which takes the status of the other.
pub poll_stale :
    {W : Type 0} (api : LoginApi W) (r fresh status : String) (l : Login) (w w' : W)
    → truthy fresh ≡ true
    → is_final status ≡ true
    → api.poll_push_auth r (l, w) ≡ (ok status, (poll_again fresh l, w'))
    → let t = (poll api r (l, w)).1.0 in
      (t.timer ≡ none) × (t.push_status ≡ status) × (t.push_request_id ≡ some fresh)
unfolding poll catch ◌>>=◌ poll_again
poll_stale api r fresh status l w w' h k q = rw (q, k, h) (refl, refl, refl)
