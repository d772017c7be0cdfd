-- ===== src/Desktop/Wizard/Polling.antt =====
-- The timer of a pending request (client/frontend/src/components/SetupWizard.tsx).
use pro_identity_access.Base.{
  String, Bool, true, false, not, ◌&&◌, ◌≡◌, refl, sym, ap, ◌∙◌, eq_iff, inl, inr, Option, none,
  some, List, [], ◌∷◌, truthy, ◌==◌, if◌then◌else◌, Bool-cases,
}
use pro_identity_access.Desktop.Managed.{LoginReply}
use pro_identity_access.Desktop.Wizard.{
  Wizard, Event, Mode, credentials, push, totp, typed_username, typed_password, typed_code,
  submitted, replied, retried, retry_started, enter_code, changed_account, ticked, polled,
  poll_failed, sign_in_failed, handle, effect, step, run, deps, same_deps, sign_in, stop_polling,
  start_polling, reset_to_credentials, is_push, ask_push, ask_code, answered, is_final, remove_at,
  tick,
}

abbrev waits : Mode → String → Bool
waits push status = status == "pending"
waits _ status = false

-- The timer asks about the current request or is not running; it runs while the sheet shows that
-- request as pending.
abbrev Polls : (timer : Option String) → (id : String) → (waiting : Bool) → Type 0
Polls none id true = ⊥
Polls none id false = Unit
Polls (some t) id waiting = t ≡ id

abbrev pub IsPolled : Wizard → Type 0
IsPolled w = Polls w.timer w.push_request_id (waits w.mode w.push_status)

Polls-quiet : (o : Option String) (id : String) (b : Bool) → Polls o id b → Polls o id false
Polls-quiet none id true h = tt
Polls-quiet none id false h = tt
Polls-quiet (some t) id b h = h

code-IsPolled : (r : LoginReply) (w : Wizard) → IsPolled w → IsPolled (ask_code r w)
code-IsPolled r w h = elim (Bool-cases r.require_totp) [
  | inl e ↦ rw e (Polls-quiet w.timer w.push_request_id (waits w.mode w.push_status) h)
  | inr e ↦ rw e h
]

ask-IsPolled :
    (b : Bool) (r : LoginReply) (w : Wizard)
    → IsPolled w
    → IsPolled (if b then ask_push r.push_request_id w else ask_code r w)
unfolding start_polling
ask-IsPolled true r w h = refl
ask-IsPolled false r w h = code-IsPolled r w h

not_waiting : (m : Mode) (status : String) → is_final status ≡ true → waits m status ≡ false
not_waiting credentials status h = refl
not_waiting totp status h = refl
not_waiting push status h = elim (Bool-cases (status == "pending")) [
  | inl e ↦ (let f = sym h ∙ ap is_final ((eq_iff status "pending").0 e) in cc)
  | inr e ↦ e
]

answered-IsPolled : (status : String) (w : Wizard) → IsPolled w → IsPolled (answered status w)
unfolding stop_polling
answered-IsPolled status w h = elim (Bool-cases (is_final status)) [
  | inl e ↦ rw (e, not_waiting w.mode status e) tt
  | inr e ↦ rw e h
]

tick-IsPolled : (o : Option String) (w : Wizard) → IsPolled w → IsPolled (tick o w)
tick-IsPolled none w h = h
tick-IsPolled (some id) w h = h

handle-IsPolled : (e : Event) (w : Wizard) → IsPolled w → IsPolled (handle e w)
unfolding handle stop_polling reset_to_credentials
handle-IsPolled (typed_username s) w h = h
handle-IsPolled (typed_password s) w h = h
handle-IsPolled (typed_code s) w h = h
handle-IsPolled submitted w h = h
handle-IsPolled (replied with_code r) w h = ask-IsPolled (not with_code && is_push r) r w h
handle-IsPolled (retried r) w h = ask-IsPolled (is_push r) r w h
handle-IsPolled retry_started w h = h
handle-IsPolled enter_code w h = tt
handle-IsPolled changed_account w h = tt
handle-IsPolled ticked w h = tick-IsPolled w.timer w h
handle-IsPolled (polled i status) w h =
    answered-IsPolled status (record w { polls = remove_at i w.polls }) h
handle-IsPolled (poll_failed i) w h = h
handle-IsPolled (sign_in_failed e) w h = h

sign_in-IsPolled : (w : Wizard) → IsPolled w → IsPolled (sign_in w)
sign_in-IsPolled w h =
    elim (Bool-cases
      (w.push_status == "approved" && truthy w.push_request_id && not w.completing)) [
        | inl e ↦ rw e h
        | inr e ↦ rw e h
      ]

effect-IsPolled : (w : Wizard) → IsPolled w → IsPolled (effect w)
unfolding effect
effect-IsPolled w h = elim (Bool-cases (same_deps (deps w) w.seen)) [
  | inl e ↦ rw e h
  | inr e ↦ rw e (sign_in-IsPolled (record w { seen = deps w }) h)
]

-- Once it is so, it stays so: the timer only ever asks about the current request, and it runs as
-- long as the wizard shows that request as pending, whatever the user does and whatever the service
-- answers.
pub run-IsPolled : (es : List Event) (w : Wizard) → IsPolled w → IsPolled (run es w)
unfolding run step
run-IsPolled [] w h = h
run-IsPolled (e ∷ es) w h =
    run-IsPolled es (step e w) (effect-IsPolled (handle e w) (handle-IsPolled e w h))
