-- ===== src/Desktop/Wizard/Stale.antt =====
-- Answers to polls of a request that was given up (client/frontend/src/components/SetupWizard.tsx).
use pro_identity_access.Base.{
  ℕ, String, Bool, true, false, not, ◌&&◌, ◌≡◌, refl, inl, inr, Option, none, some, List, [], ◌∷◌,
  ◌++◌, All, truthy, ◌==◌, if◌then◌else◌, Bool-cases, arith, sym, ap, eq_iff, ◌∙◌,
}
use pro_identity_access.Desktop.Managed.{LoginReply}
use pro_identity_access.Desktop.Wizard.{
  Wizard, Event, typed_username, typed_password, typed_code, submitted, replied, retried,
  retry_started, enter_code, changed_account, ticked, polled, poll_failed, sign_in_failed, handle,
  effect, step, run, deps, same_deps, sign_in, stop_polling, reset_to_credentials, is_final,
  remove_at, tick, is_push, ask_push, start_polling,
}

-- No reply that may bring a new request.
abbrev IsMute : Event → Type 0
IsMute (replied with_code r) = ⊥
IsMute (retried r) = ⊥
IsMute _ = Unit

-- There is no request, and the sign-ins are `ids`.
abbrev Free : List String → Wizard → Type 0
Free ids w = (w.push_request_id ≡ "") × (w.sign_ins ≡ ids)

answered-Free :
    (ids : List String) (b : Bool) (status : String) (w : Wizard)
    → Free ids w
    → Free ids (if b then record (stop_polling w) { push_status = status } else w)
unfolding stop_polling
answered-Free ids true status w h = h
answered-Free ids false status w h = h

tick-Free : (ids : List String) (o : Option String) (w : Wizard) → Free ids w → Free ids (tick o w)
tick-Free ids none w h = h
tick-Free ids (some id) w h = h

handle-Free :
    (ids : List String) (e : Event) (w : Wizard) → IsMute e → Free ids w → Free ids (handle e w)
unfolding handle stop_polling reset_to_credentials
handle-Free ids (typed_username s) w q h = h
handle-Free ids (typed_password s) w q h = h
handle-Free ids (typed_code s) w q h = h
handle-Free ids submitted w q h = h
handle-Free ids (replied with_code r) w q h = elim q [ ]
handle-Free ids (retried r) w q h = elim q [ ]
handle-Free ids retry_started w q h = h
handle-Free ids enter_code w q h = h
handle-Free ids changed_account w q (i, s) = (refl, s)
handle-Free ids ticked w q h = tick-Free ids w.timer w h
handle-Free ids (polled i status) w q h =
    answered-Free ids (is_final status) status (record w { polls = remove_at i w.polls }) h
handle-Free ids (poll_failed i) w q h = h
handle-Free ids (sign_in_failed e) w q h = h

no_sign_in : (b c : Bool) (id : String) → id ≡ "" → (b && truthy id && c) ≡ false
no_sign_in b c id e = rw e (ground arith)

sign_in-Free : (ids : List String) (w : Wizard) → Free ids w → Free ids (sign_in w)
sign_in-Free ids w (i, s) =
    rw (no_sign_in (w.push_status == "approved") (not w.completing) w.push_request_id i) (i, s)

effect-Free : (ids : List String) (w : Wizard) → Free ids w → Free ids (effect w)
unfolding effect
effect-Free ids w h = elim (Bool-cases (same_deps (deps w) w.seen)) [
  | inl e ↦ rw e h
  | inr e ↦ rw e (sign_in-Free ids (record w { seen = deps w }) h)
]

run-Free :
    (ids : List String) (es : List Event) (w : Wizard)
    → All IsMute es
    → Free ids w
    → Free ids (run es w)
unfolding run step
run-Free ids [] w q h = h
run-Free ids (e ∷ es) w (q, qs) h =
    run-Free ids es (step e w) qs (effect-Free ids (handle e w) (handle-Free ids e w q h))

-- "Change account" gives up the request: until a reply of the service arrives, to the form or to a
-- "Try again", also one that was sent before, no answer to a poll and nothing the user does starts
-- a sign-in.
pub sign_ins-changed_account :
    (es : List Event) (w : Wizard)
    → All IsMute es
    → (run (changed_account ∷ es) w).sign_ins ≡ w.sign_ins
unfolding run step handle reset_to_credentials stop_polling
sign_ins-changed_account es w q =
    let start = effect-Free w.sign_ins (handle changed_account w) (refl, refl) in
    (run-Free w.sign_ins es (step changed_account w) q start).1

-- An answer is not matched with the request it is about: while a request is pending and no sign-in
-- runs, "approved" as the answer to any poll, also one for a request that was given up, ends the
-- polling of the current request and signs in with it, which nobody may have approved.
pub polled_stale :
    (i : ℕ) (w : Wizard)
    → w.push_status ≡ "pending"
    → w.seen.status ≡ "pending"
    → w.completing ≡ false
    → truthy w.push_request_id ≡ true
    → ((step (polled i "approved") w).sign_ins ≡ w.sign_ins ++ w.push_request_id ∷ [])
      × ((step (polled i "approved") w).timer ≡ none)
unfolding step handle effect stop_polling
polled_stale i w p s c t = (rw (s, c, t) refl, rw (s, c, t) refl)

-- What the effect does where the status is not "approved": it notes what it depends on.
abbrev Noted : Wizard → Wizard → Type 0
Noted w w' =
    (w'.push_status ≡ w.push_status)
    × (w'.seen.status ≡ w.push_status)
    × (w'.completing ≡ w.completing)
    × (w'.push_request_id ≡ w.push_request_id)
    × (w'.sign_ins ≡ w.sign_ins)

effect-Noted : (w : Wizard) → (w.push_status == "approved") ≡ false → Noted w (effect w)
unfolding effect
effect-Noted w h = elim (Bool-cases (same_deps (deps w) w.seen)) [
  | inl e ↦
      let same : (w.push_status == w.seen.status) ≡ true = ground (arith, e) in
      rw e (refl, sym ((eq_iff w.push_status w.seen.status).0 same), refl, refl, refl)
  | inr e ↦ rw (e, h) (refl, refl, refl, refl, refl)
]

retried_push :
    (r : LoginReply) (w : Wizard)
    → is_push r ≡ true
    → handle (retried r) w ≡ ask_push r.push_request_id w
unfolding handle
retried_push r w h = rw h refl

push_id : (r : LoginReply) → is_push r ≡ true → truthy r.push_request_id ≡ true
push_id r h = ground (arith, h)

changed-Noted :
    (w : Wizard)
    → ((step changed_account w).completing ≡ false)
      × ((step changed_account w).sign_ins ≡ w.sign_ins)
unfolding step handle reset_to_credentials stop_polling
changed-Noted w = let (p, s, c, i, g) = effect-Noted (handle changed_account w) refl in (c, g)

retried-Noted :
    (r : LoginReply) (w : Wizard)
    → is_push r ≡ true
    → w.completing ≡ false
    → let w' = step (retried r) w in
      (w'.push_status ≡ "pending")
      × (w'.seen.status ≡ "pending")
      × (w'.completing ≡ false)
      × (w'.push_request_id ≡ r.push_request_id)
      × (w'.sign_ins ≡ w.sign_ins)
unfolding step start_polling
retried-Noted r w h k =
    rw (retried_push r w h) (
      let (p, s, c, i, g) = effect-Noted (ask_push r.push_request_id w) refl in (p, s, c ∙ k, i, g))

-- "Change account" does not give up a "Try again" that is under way: if its reply then brings a push
-- request, the answer "approved" to a poll starts a sign-in with it.
pub retried_late :
    (r : LoginReply) (i : ℕ) (w : Wizard)
    → is_push r ≡ true
    → (run (changed_account ∷ retried r ∷ polled i "approved" ∷ []) w).sign_ins
      ≡ w.sign_ins ++ r.push_request_id ∷ []
unfolding run
retried_late r i w h =
    let w1 : Wizard = step changed_account w in
    let w2 : Wizard = step (retried r) w1 in
    let (c1, g1) = changed-Noted w in
    let (p, s, c, k, g) = retried-Noted r w1 h c1 in
    (polled_stale i w2 p s c (ap truthy k ∙ push_id r h)).0 ∙ rw (k, g, g1) refl
