-- ===== src/Desktop/Managed/SignIn.antt =====
-- Signing in and out of the managed store.
use pro_identity_access.Base.{String, true, false, ◌≡◌, none, some, [], arith, if◌then◌else◌}
use pro_identity_access.Async.{Outcome, ok, threw, Ends, string_of, ◌>>=◌}
use pro_identity_access.Desktop.Types.{ManagedLoginResult}
use pro_identity_access.Desktop.Managed.{
  ManagedStore, State, ManagedApi, LoginReply, start_loading, login, login_with_push, logout,
  save_server_url, load_settings, signed_in, signed_out, second_factor, complete,
}

-- What a sign-in attempt makes of the service's answer and the store `m` that it meets then.
abbrev AfterLogin :
    Outcome ManagedLoginResult → ManagedStore → Outcome LoginReply → ManagedStore → Type 0
AfterLogin (threw e) m r m' =
    (r ≡ threw e) × (m' ≡ record m { loading = false; error = some (string_of e) })
AfterLogin (ok result) m r m' =
    if result.require_totp
    then (r ≡ ok (second_factor result)) × (m' ≡ record m { loading = false })
    else (r ≡ ok complete)
      × (m'.settings.logged_in ≡ true)
      × (m'.settings.username ≡ result.username)
      × (m'.settings.server_url ≡ m.settings.server_url)
      × (m'.servers ≡ m.servers)
      × (m'.loading ≡ false)

module _ {W : Type 0} (api : ManagedApi W) where
  -- Signing in, by the service's answer: a request for a second factor only ends the loading, a
  -- full answer signs the user in and touches neither the server's address nor the servers, and a
  -- failure is shown and thrown.
  pub login_lem :
      (u p c : String) (s : State W)
      → let (answer, s') = api.login u p c (start_loading s.0, s.1) in
        let (r, s'') = login api u p c s in AfterLogin answer s'.0 r s''.0
  unfolding login ◌>>=◌ signed_in
  login_lem u p c s = ground arith

  -- Signing out never throws. It forgets the user and the servers and keeps the server's address if
  -- the service accepts; otherwise all of that stays and the error is shown.
  pub logout_lem :
      (s : State W)
      → let (answer, s') = api.logout (start_loading s.0, s.1) in
        let (r, s'') = logout api s in
        (r ≡ ok tt)
        × (s''.0.loading ≡ false)
        × Ends answer
            (λ _.
              (s''.0.settings.logged_in ≡ false)
              × (s''.0.settings.username ≡ "")
              × (s''.0.servers ≡ [])
              × (s''.0.settings.server_url ≡ s'.0.settings.server_url))
            (λ e.
              (s''.0.settings ≡ s'.0.settings)
              × (s''.0.servers ≡ s'.0.servers)
              × (s''.0.error ≡ some (string_of e)))
  unfolding logout ◌>>=◌ signed_out
  logout_lem s = ground arith

  -- Signing in with an approved push request has two ends: signed in, or the error shown and thrown.
  pub login_with_push_lem :
      (u p r : String) (s : State W)
      → let (answer, s') = api.login_with_push u p r (start_loading s.0, s.1) in
        let (end, s'') = login_with_push api u p r s in
        Ends answer
          (λ result. (end ≡ ok tt) × (s''.0 ≡ signed_in result s'.0))
          (λ e.
            (end ≡ threw e) × (s''.0 ≡ record s'.0 { loading = false; error = some (string_of e) }))
  unfolding login_with_push ◌>>=◌ signed_in
  login_with_push_lem u p r s = ground arith

  -- Saving the server's address reads the settings back, and returns also if that fails; a refused
  -- address is shown as an error and thrown, with the settings as they were.
  pub save_server_url_lem :
      (url : String) (s : State W)
      → let (saved, s') = api.save_server_url url (record s.0 { error = none }, s.1) in
        let (read, s'') = api.get_settings s' in
        let (end, t) = save_server_url api url s in
        Ends saved
          (λ _.
            (end ≡ ok tt)
            × Ends read (λ settings. t.0 ≡ record s''.0 { settings = settings }) (λ _. t.0 ≡ s''.0))
          (λ e. (end ≡ threw e) × (t.0 ≡ record s'.0 { error = some (string_of e) }))
  unfolding save_server_url load_settings ◌>>=◌
  save_server_url_lem url s = ground arith
