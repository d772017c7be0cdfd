-- ===== src/Desktop/Setup/Steps.antt =====
-- The steps of the wizard: what each action leaves, on every branch.
use pro_identity_access.Base.{
  String, Bool, true, false, ◌≡◌, inl, inr, refl, Option, none, some, arith, ◌==◌, eq_iff, truthy,
  Bool-cases, if◌then◌else◌,
}
use pro_identity_access.Async.{ok, threw, Outcome-cases, Ends, string_of, catch, set, ◌>>=◌}
use pro_identity_access.Desktop.Setup.{
  AppMode, standalone, managed, SetupApi, State, start_loading, fail_loading, restore,
  fallback_name, set_device_name, ensure_device_name, check_step, check_setup, choose_mode,
  persist_server_url, register_device,
}

-- The mode that a choice is sent to the service as.
abbrev target : Option AppMode → AppMode
target (some standalone) = standalone
target _ = managed

abbrev is_standalone : AppMode → Bool
is_standalone standalone = true
is_standalone managed = false

module _ {W : Type 0} (api : SetupApi W) where
  -- The default name is asked for only if no name was entered: an entered name stays, an answer
  -- that is not blank becomes the name, a blank one changes nothing, a failure gives the fixed name.
  pub ensure_device_name_lem :
      (s : State W)
      → let (answer, s') = api.default_device_name s in
        let (r, t) = ensure_device_name api s in
        (r ≡ ok tt)
        × (if truthy (api.trim s.0.device_name)
            then t ≡ s
            else Ends answer
                (λ name.
                  t.0
                  ≡ (if truthy (api.trim name) then record s'.0 { device_name = name } else s'.0))
                (λ e. t.0 ≡ record s'.0 { device_name = fallback_name }))
  unfolding ensure_device_name ◌>>=◌ set_device_name
  ensure_device_name_lem s = ground arith

  -- Choosing a mode: "standalone" ends the setup, anything else goes to the server step; a failure
  -- is shown and thrown, and neither ends the setup nor leaves the step.
  pub choose_mode_lem :
      (mode : Option AppMode) (s : State W)
      → let started : State W = (record s.0 { loading = true; error = none; mode = mode }, s.1) in
        let (answer, s') = api.set_mode (target mode) started in
        let (r, t) = choose_mode api mode s in
        (r ≡ answer)
        × (t.0.loading ≡ false)
        × Ends answer
            (λ _.
              (t.0.setup_done ≡ (if is_standalone (target mode) then true else s'.0.setup_done))
              × (t.0.step ≡ (if is_standalone (target mode) then s'.0.step else "server")))
            (λ e.
              (t.0.setup_done ≡ s'.0.setup_done)
              × (t.0.step ≡ s'.0.step)
              × (t.0.error ≡ some (string_of e)))
  unfolding choose_mode ◌>>=◌
  choose_mode_lem none s = ground arith
  choose_mode_lem (some standalone) s = ground arith
  choose_mode_lem (some managed) s = ground arith

  -- Saving the server's address on the way to the next step: a blank one is not sent, and a failed
  -- call is thrown before a device name is asked for; otherwise the rest is `ensure_device_name`.
  pub persist_server_url_lem :
      (s : State W)
      → let (saved, s') = api.save_server_url s.0.server_url s in
        if truthy (api.trim s.0.server_url)
        then Ends saved
            (λ _. persist_server_url api s ≡ ensure_device_name api s')
            (λ e. persist_server_url api s ≡ (threw e, s'))
        else (persist_server_url api s ≡ ensure_device_name api s)
  unfolding persist_server_url ◌>>=◌
  persist_server_url_lem s = elim (Bool-cases (truthy (api.trim s.0.server_url))) [
    | inl b ↦ elim (Outcome-cases (api.save_server_url s.0.server_url s).0) [
      | inl (_, h) ↦ rw (b, h)
      | inr (e, h) ↦ rw (b, h)
    ]
    | inr b ↦ rw b
  ]

  -- Registering a device reaches the sign-in step exactly if both calls return; the first that fails
  -- is shown and thrown, and the step stays. It is over afterwards in each case.
  pub register_device_lem :
      (s : State W)
      → let s₁ = (ensure_device_name api s).1 in
        let name = s₁.0.device_name in
        let url = s₁.0.server_url in
        let (saved, s₂) = api.save_server_url url (start_loading s₁.0, s₁.1) in
        let (registered, s₃) = api.register_device url name s₂ in
        let (r, t) = register_device api s in
        (t.0.loading ≡ false)
        × Ends saved
            (λ _.
              Ends registered
                (λ _. (r ≡ ok tt) × (t.0.step ≡ "login"))
                (λ e. (r ≡ threw e) × (t ≡ (fail_loading e s₃.0, s₃.1))))
            (λ e. (r ≡ threw e) × (t ≡ (fail_loading e s₂.0, s₂.1)))
  unfolding register_device ◌>>=◌
  register_device_lem s = ground (arith, ensure_device_name_lem s)

  -- What the check at startup makes of the step `step`, from the state `s` to the state `t`.
  abbrev Resumes : String → State W → State W → Type 0
  Resumes step s t =
      if step == "done"
      then (t ≡ (record s.0 { setup_done = true; step = "done" }, s.1))
      else (if step == "mode"
          then (t ≡ (restore step "" s.0, s.1))
          else (let (read, s') = api.get_settings s in
              Ends read
                (λ settings.
                  let resumed : State W = (restore step settings.server_url s'.0, s'.1) in
                  t ≡ (if step == "register" then (ensure_device_name api resumed).1 else resumed))
                (λ _. t ≡ (record s'.0 { setup_done = false }, s'.1))))

  mode_not_register : (step : String) → (step == "mode") ≡ true → (step == "register") ≡ false
  mode_not_register step m = rw ((eq_iff step "mode").0 m) refl

  check_step-Resumes :
      (step : String) (s : State W)
      → let (r, t) =
          catch (check_step api step) (λ _. set (λ m. record m { setup_done = false })) s in
        (r ≡ ok tt) × Resumes step s t
  unfolding check_step ◌>>=◌ set_device_name
  check_step-Resumes step s = elim (Bool-cases (step == "done")) [
    | inl d ↦ rw d (refl, refl)
    | inr d ↦ elim (Bool-cases (step == "mode")) [
      | inl m ↦ rw (d, m, mode_not_register step m) (refl, refl)
      | inr m ↦ elim (Outcome-cases (api.get_settings s).0) [
        | inl (settings, e) ↦ elim (Bool-cases (step == "register")) [
          | inl g ↦
              let (read, s') = api.get_settings s in
              let resumed : State W = (restore step settings.server_url s'.0, s'.1) in
              let named = (ensure_device_name_lem resumed).0 in rw (d, m, e, g, named) (refl, refl)
          | inr g ↦ rw (d, m, e, g) (refl, refl)
        ]
        | inr (x, e) ↦ rw (d, m, e) (refl, refl)
      ]
    ]
  ]

  -- The check at startup never throws, and resumes at the step that the service names: the wizard is
  -- over exactly at "done", past "mode" the server's address is read back, at "register" a device
  -- name is ensured, and where a call fails the wizard starts with what it has.
  pub check_setup_lem :
      (s : State W)
      → let (answer, s') = api.get_setup_step s in
        let (r, t) = check_setup api s in
        (r ≡ ok tt)
        × Ends answer
            (λ step. Resumes step s' t)
            (λ _. t ≡ (record s'.0 { setup_done = false }, s'.1))
  unfolding check_setup ◌>>=◌
  check_setup_lem s = elim (Outcome-cases (api.get_setup_step s).0) [
    | inl (step, e) ↦ rw e (check_step-Resumes step (api.get_setup_step s).1)
    | inr (x, e) ↦ rw e (refl, refl)
  ]
