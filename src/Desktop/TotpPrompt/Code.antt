-- ===== src/Desktop/TotpPrompt/Code.antt =====
-- The code of the second factor.
use Prim.Native.String.{[], ◌∷◌}
use pro_identity_access.Base.{
  Option, ℕ, zero, suc, ◌≤◌, String, Bool, true, ◌≡◌, refl, Bool-cases, inl, inr, arith,
}
use pro_identity_access.Async.{Async, set}
use pro_identity_access.Async.Keeps.{
  Keeps, On, Keeps-bind, Keeps-set, Keeps-get, Keeps-catch, Keeps-if, Keeps-pure,
}
use pro_identity_access.Desktop.TotpPrompt.{
  Prompt, State, PromptApi, is_digit, digits_of, take_chars, count, enter, reset, use_push, react,
  poll, start_push, submit_totp, cancel, close, switch_to_code, unless_cleaned_up,
}

abbrev AllDigits : String → Type 0
AllDigits [] = Unit
AllDigits (c ∷ s) = (is_digit c ≡ true) × AllDigits s

-- The code holds digits only, and at most six.
abbrev pub IsCode : Prompt → Type 0
IsCode p = AllDigits p.entered × (count p.entered ≤ 6)

digits_of-AllDigits : (s : String) → AllDigits (digits_of s)
unfolding digits_of
digits_of-AllDigits [] = tt
digits_of-AllDigits (c ∷ s) = elim (Bool-cases (is_digit c)) [
  | inl k ↦ rw k (k, digits_of-AllDigits s)
  | inr k ↦ rw k (digits_of-AllDigits s)
]

take_chars-AllDigits : (n : ℕ) (s : String) → AllDigits s → AllDigits (take_chars n s)
unfolding take_chars
take_chars-AllDigits zero s h = tt
take_chars-AllDigits (suc n) [] h = tt
take_chars-AllDigits (suc n) (c ∷ s) (d, h) = (d, take_chars-AllDigits n s h)

count-take_chars : (n : ℕ) (s : String) → count (take_chars n s) ≤ n
unfolding take_chars count
count-take_chars zero s = omega arith
count-take_chars (suc n) [] = omega arith
count-take_chars (suc n) (c ∷ s) = omega (arith, count-take_chars n s)

enter-IsCode : (typed : String) (p : Prompt) → IsCode (enter typed p)
unfolding enter
enter-IsCode typed p = (
  take_chars-AllDigits 6 (digits_of typed) (digits_of-AllDigits typed),
  count-take_chars 6 (digits_of typed),
)

-- The calls of the surroundings change the sheet only by its own operations.
pub record IsTame {W : Type 0} (api : PromptApi W) : Type 0 where
  pub create_push_auth : (c : String) → Keeps (On IsCode) (api.create_push_auth c)
  pub poll_push_auth : (r : String) → Keeps (On IsCode) (api.poll_push_auth r)
  pub is_cleaned_up : Keeps (On IsCode) api.is_cleaned_up
  pub on_submit : (c : String) → Keeps (On IsCode) (api.on_submit c)
  pub on_push_approved : (r : String) → Keeps (On IsCode) (api.on_push_approved r)
  pub on_cancel : Keeps (On IsCode) api.on_cancel
  pub on_switch_to_code : Keeps (On IsCode) api.on_switch_to_code

module _ {W : Type 0} (api : PromptApi W) (tame : IsTame api) where
  abbrev Safe : Async (State W) (Unit {0}) → Type 0
  Safe m = Keeps (On IsCode) m

  -- A change that leaves the code.
  same : (f : Prompt → Prompt) → ((p : Prompt) → (f p).entered ≡ p.entered) → Safe (set f)
  same f e = Keeps-set f (λ p h. rw (e p) h)

  cleared : (f : Prompt → Prompt) → ((p : Prompt) → (f p).entered ≡ "") → Safe (set f)
  cleared f e = Keeps-set f (λ p h. rw (e p) (tt, unfold count in omega arith))

  unless_stale : (m : Async (State W) (Unit {0})) → Safe m → Safe (unless_cleaned_up api m)
  unless_stale m h = Keeps-bind _ _ tame.is_cleaned_up λ b. Keeps-if b _ _ (Keeps-pure tt) h

  react-IsCode : (r status : String) → Safe (react api r status)
  unfolding react
  react-IsCode r status = Keeps-bind _ _ (same _ (λ _. refl)) λ _.
      Keeps-if _ _ _
        (Keeps-bind _ _ (same _ (λ _. refl)) λ _.
          Keeps-bind _ _ (Keeps-catch _ _ (tame.on_push_approved r) (λ e. same _ (λ _. refl)))
            λ _. same _ (λ _. refl))
        (Keeps-if _ _ _ (same _ (λ _. refl)) (Keeps-pure tt))

  poll-IsCode : (r : String) → Safe (poll api r)
  unfolding poll
  poll-IsCode r =
      Keeps-catch _ _
        (Keeps-bind _ _ (tame.poll_push_auth r) λ status. unless_stale _ (react-IsCode r status))
        (λ _. Keeps-pure tt)

  start_push-IsCode : (name : Option String) → Safe (start_push api name)
  unfolding start_push
  start_push-IsCode name =
      Keeps-catch _ _
        (Keeps-bind _ _ (tame.create_push_auth _) λ r. unless_stale _ (same _ (λ _. refl)))
        (λ e. unless_stale _ (same _ (λ _. refl)))

  submit_totp-IsCode : Safe (submit_totp api)
  unfolding submit_totp
  submit_totp-IsCode = Keeps-bind _ _ Keeps-get λ p.
      Keeps-if _ _ _
        (Keeps-bind _ _ (same _ (λ _. refl)) λ _.
          Keeps-bind _ _ (Keeps-catch _ _ (tame.on_submit p.entered) (λ e. cleared _ (λ _. refl)))
            λ _. same _ (λ _. refl))
        (Keeps-pure tt)

  cancel-IsCode : Safe (cancel api)
  unfolding cancel
  cancel-IsCode = Keeps-bind _ _ (same _ (λ _. refl)) (λ _. tame.on_cancel)

  close-IsCode : Safe (close api)
  unfolding close
  close-IsCode = Keeps-bind _ _ Keeps-get λ p. Keeps-if _ _ _ (Keeps-pure tt) cancel-IsCode

  switch_to_code-IsCode : Safe (switch_to_code api)
  unfolding switch_to_code
  switch_to_code-IsCode = Keeps-bind _ _ (same _ (λ _. refl)) (λ _. tame.on_switch_to_code)

  -- If the calls of the surroundings keep this too, the code of the sheet holds digits only, and at
  -- most six, whatever is typed and after every operation of the sheet.
  pub prompt-IsCode :
      ((b : Bool) → Keeps (On IsCode) (set {W = W} (reset b)))
      × ((typed : String) → Keeps (On IsCode) (set {W = W} (enter typed)))
      × Keeps (On IsCode) (set {W = W} use_push)
      × ((r : String) → Keeps (On IsCode) (poll api r))
      × ((name : Option String) → Keeps (On IsCode) (start_push api name))
      × Keeps (On IsCode) (submit_totp api)
      × Keeps (On IsCode) (cancel api)
      × Keeps (On IsCode) (close api)
      × Keeps (On IsCode) (switch_to_code api)
  unfolding reset use_push
  prompt-IsCode = (
    λ b. cleared (reset b) (λ _. refl),
    λ typed. Keeps-set (enter typed) (λ p _. enter-IsCode typed p),
    cleared use_push (λ _. refl),
    poll-IsCode,
    start_push-IsCode,
    submit_totp-IsCode,
    cancel-IsCode,
    close-IsCode,
    switch_to_code-IsCode,
  )
