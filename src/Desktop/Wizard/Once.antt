-- ===== src/Desktop/Wizard/Once.antt =====
-- How often an approval signs in (client/frontend/src/components/SetupWizard.tsx).
use pro_identity_access.Base.{
  ℕ, suc, ◌+◌, ◌≤◌, String, Bool, true, false, not, ◌&&◌, ◌≡◌, refl, ◌∙◌, inl, inr, Option, none,
  some, List, [], ◌∷◌, All, length, length-append, truthy, ◌==◌, if◌then◌else◌, Bool-cases, arith,
}
use pro_identity_access.Desktop.Managed.{LoginReply}
use pro_identity_access.Desktop.Wizard.{
  Wizard, Event, typed_username, typed_password, typed_code, submitted, replied, retried,
  retry_started, enter_code, changed_account, ticked, polled, poll_failed, sign_in_failed, handle,
  effect, step, run, deps, same_deps, sign_in, stop_polling, start_polling, is_push, ask_push,
  ask_code, is_final, remove_at, tick,
}

-- What neither gives up a sign-in that runs nor ends it.
abbrev IsSteady : Event → Type 0
IsSteady changed_account = ⊥
IsSteady retry_started = ⊥
IsSteady (sign_in_failed e) = ⊥
IsSteady _ = Unit

-- What an event leaves alone.
abbrev Keeps : Wizard → Wizard → Type 0
Keeps w w' = (w'.completing ≡ w.completing) × (w'.sign_ins ≡ w.sign_ins)

code-Keeps : (r : LoginReply) (w : Wizard) → Keeps w (ask_code r w)
code-Keeps r w = elim (Bool-cases r.require_totp) [
  | inl e ↦ rw e (refl, refl)
  | inr e ↦ rw e (refl, refl)
]

ask-Keeps :
    (b : Bool) (r : LoginReply) (w : Wizard)
    → Keeps w (if b then ask_push r.push_request_id w else ask_code r w)
unfolding start_polling
ask-Keeps true r w = (refl, refl)
ask-Keeps false r w = code-Keeps r w

answered-Keeps :
    (b : Bool) (status : String) (w : Wizard)
    → Keeps w (if b then record (stop_polling w) { push_status = status } else w)
unfolding stop_polling
answered-Keeps true status w = (refl, refl)
answered-Keeps false status w = (refl, refl)

tick-Keeps : (o : Option String) (w : Wizard) → Keeps w (tick o w)
tick-Keeps none w = (refl, refl)
tick-Keeps (some id) w = (refl, refl)

handle-Keeps : (e : Event) (w : Wizard) → IsSteady e → Keeps w (handle e w)
unfolding handle stop_polling
handle-Keeps (typed_username s) w q = (refl, refl)
handle-Keeps (typed_password s) w q = (refl, refl)
handle-Keeps (typed_code s) w q = (refl, refl)
handle-Keeps submitted w q = (refl, refl)
handle-Keeps (replied with_code r) w q = ask-Keeps (not with_code && is_push r) r w
handle-Keeps (retried r) w q = ask-Keeps (is_push r) r w
handle-Keeps retry_started w q = elim q [ ]
handle-Keeps enter_code w q = (refl, refl)
handle-Keeps changed_account w q = elim q [ ]
handle-Keeps ticked w q = tick-Keeps w.timer w
handle-Keeps (polled i status) w q =
    answered-Keeps (is_final status) status (record w { polls = remove_at i w.polls })
handle-Keeps (poll_failed i) w q = (refl, refl)
handle-Keeps (sign_in_failed e) w q = elim q [ ]

-- The sign-ins that were started: `n`, and one more while one runs.
abbrev Count : ℕ → Bool → ℕ → Type 0
Count n true m = m ≡ suc n
Count n false m = m ≡ n

abbrev Ledger : ℕ → Wizard → Type 0
Ledger n w = Count n w.completing (length w.sign_ins)

abbrev may_sign_in : Wizard → Bool
may_sign_in w = w.push_status == "approved" && truthy w.push_request_id && not w.completing

idle_Count : (n m : ℕ) (c : Bool) → c ≡ false → Count n c m → m ≡ n
idle_Count n m true e h = cc
idle_Count n m false e h = h

sign_in-Ledger : (n : ℕ) (w : Wizard) → Ledger n w → Ledger n (sign_in w)
sign_in-Ledger n w h = elim (Bool-cases (may_sign_in w)) [
  | inl e ↦
      let c : w.completing ≡ false = ground (arith, e) in
      let m = idle_Count n (length w.sign_ins) w.completing c h in
      rw e (length-append w.sign_ins (w.push_request_id ∷ []) ∙ omega arith)
  | inr e ↦ rw e h
]

effect-Ledger : (n : ℕ) (w : Wizard) → Ledger n w → Ledger n (effect w)
unfolding effect
effect-Ledger n w h = elim (Bool-cases (same_deps (deps w) w.seen)) [
  | inl e ↦ rw e h
  | inr e ↦ rw e (sign_in-Ledger n (record w { seen = deps w }) h)
]

Keeps-Ledger : (n : ℕ) (w w' : Wizard) → Keeps w w' → Ledger n w → Ledger n w'
Keeps-Ledger n w w' (c, s) h = rw (c, s) h

run-Ledger :
    (n : ℕ) (es : List Event) (w : Wizard) → All IsSteady es → Ledger n w → Ledger n (run es w)
unfolding run step
run-Ledger n [] w q h = h
run-Ledger n (e ∷ es) w (q, qs) h =
    run-Ledger n es (step e w) qs
      (effect-Ledger n (handle e w) (Keeps-Ledger n w (handle e w) (handle-Keeps e w q) h))

Count-bound : (n m : ℕ) (c : Bool) → Count n c m → m ≤ n + 1
Count-bound n m true h = omega arith
Count-bound n m false h = omega arith

Count-start : (n : ℕ) (c : Bool) → c ≡ false → Count n c n
Count-start n true e = cc
Count-start n false e = refl

-- From a state without a running sign-in, and until one fails, the user tries again or changes the
-- account, at most one sign-in is started, however often and in whatever order the answers to the
-- polls arrive.
pub sign_ins-run :
    (es : List Event) (w : Wizard)
    → w.completing ≡ false
    → All IsSteady es
    → length (run es w).sign_ins ≤ length w.sign_ins + 1
sign_ins-run es w c q =
    let n = length w.sign_ins in
    Count-bound n _ (run es w).completing (run-Ledger n es w q (Count-start n w.completing c))
