-- ===== src/Desktop/Update/Prompt.antt =====
-- When the user is asked to install an update, what "Later" does, and how a check ends.
use pro_identity_access.Base.{
  ℕ, ◌+◌, String, Bool, true, false, not, ◌≡◌, some, arith, eq_refl, ltb, or_else, truthy,
  if◌then◌else◌,
}
use pro_identity_access.Async.{ok, Ends, message_of, ◌>>=◌}
use pro_identity_access.Desktop.Update.{
  UpdateStore, UpdateState, UpdateApi, State, available, failed, snooze_ms, offered, later,
  should_prompt, check, install,
}

-- An optional update of version `v` is on offer, and none is being installed.
pub record OffersVersion (v : String) (s : UpdateStore) : Type 0 where
  pub status : UpdateState
  pub shown : s.status ≡ some status
  pub is_available : status.state ≡ available
  pub version : status.latest_version ≡ some v
  pub named : truthy v ≡ true
  pub optional : or_else status.mandatory false ≡ false
  pub quiet : s.installing ≡ false

-- "Later" hides an optional update for 24 hours, and not longer: asked at the time `t`, the prompt
-- shows again exactly from then on.
should_prompt-later :
    (v : String) (now t : ℕ) (s : UpdateStore)
    → OffersVersion v s
    → s.storage.writable ≡ true
    → should_prompt t (later now s) ≡ not (ltb t (now + snooze_ms))
unfolding should_prompt later offered
should_prompt-later v now t s o w =
    ground (arith, o.shown, o.is_available, o.version, o.named, o.optional, o.quiet, eq_refl v)

-- Where the browser storage cannot be written, "Later" does nothing for an optional update: the
-- prompt shows whenever it would have shown without it, though the store counts as dismissed.
later_unwritable :
    (v : String) (now t : ℕ) (s : UpdateStore)
    → OffersVersion v s
    → s.storage.writable ≡ false
    → (should_prompt t (later now s) ≡ should_prompt t s) × ((later now s).dismissed ≡ true)
unfolding should_prompt later offered
later_unwritable v now t s o w =
    ground (arith, o.shown, o.is_available, o.version, o.named, o.optional, o.quiet)

-- A mandatory update is prompted for as long as it is on offer, whatever was dismissed or put off.
should_prompt_mandatory :
    (now t : ℕ) (s : UpdateStore) (status : UpdateState)
    → s.status ≡ some status
    → status.state ≡ available
    → status.mandatory ≡ some true
    → (should_prompt t s ≡ true) × (should_prompt t (later now s) ≡ true)
unfolding should_prompt later offered
should_prompt_mandatory now t s status e a m = ground arith

module _ {W : Type 0} (api : UpdateApi W) where
  abbrev pub checking : Bool → UpdateStore → UpdateStore
  checking silent s = record s { checking = true; error = if silent then s.error else "" }

  -- A check never throws. While one is running another does nothing; otherwise it ends with no check
  -- running, whatever other code did meanwhile: with the new status and nothing dismissed if the
  -- service answered, and with the message of the failure, unless it was a silent one, if not.
  pub check_lem :
      (silent : Bool) (s : State W)
      → let (answer, s') = api.check_for_update (checking silent s.0, s.1) in
        let (r, t) = check api silent s in
        (r ≡ ok tt)
        × (if s.0.checking
            then t ≡ s
            else (t.0.checking ≡ false)
              × Ends answer
                  (λ status.
                    (t.0.status ≡ some status) × (t.0.dismissed ≡ false) × (t.0.error ≡ s'.0.error))
                  (λ e.
                    (t.0.status ≡ s'.0.status)
                    × (t.0.error ≡ (if silent then s'.0.error else message_of e))))
  unfolding check ◌>>=◌ message_of
  check_lem silent s = ground arith

  -- An installation that cannot be started ends the "installing" state and shows why.
  pub install_lem :
      (s : State W)
      → let (answer, s') = api.install_update (record s.0 { installing = true; error = "" }, s.1) in
        let (r, t) = install api s in
        (r ≡ ok tt)
        × Ends answer
            (λ _. t ≡ s')
            (λ e. t.0 ≡ record s'.0 { installing = false; error = message_of e })
  unfolding install ◌>>=◌ message_of
  install_lem s = ground arith

-- A failed update is shown until it is dismissed, and a check that finds it failed shows it again.
failed_prompt :
    (now : ℕ) (s : UpdateStore) (status : UpdateState)
    → s.status ≡ some status
    → status.state ≡ failed
    → s.installing ≡ false
    → (should_prompt now s ≡ not s.dismissed) × (should_prompt now (later now s) ≡ false)
unfolding should_prompt later offered
failed_prompt now s status e f q = ground arith
