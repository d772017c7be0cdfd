-- ===== src/Desktop/Bridge/Rounds.antt =====
-- client/frontend/src/wailsbridge.ts: what a call of the bridge does and its opposite undoes, and
-- the calls that are written never to throw.
use pro_identity_access.Base.{
  ℕ, String, Bool, true, false, ◌≡◌, refl, ap, List, [], ◌∷◌, ◌++◌, ◌==◌, eq_refl, All, inl, inr,
}
use pro_identity_access.Async.{Async, ok, Outcome-cases, pure, catch, ◌>>=◌}
use pro_identity_access.Desktop.Types.{TunnelInfo}
use pro_identity_access.Desktop.Bridge.Bindings.{App, Mock, State}
use pro_identity_access.Desktop.Bridge.Mocks.{
  push_mock, splice, managed_id, mock_import, mock_connection, blank_settings,
}
use pro_identity_access.Desktop.Bridge.Calls.{
  is_daemon_running, system_language, place_tray_window, set_ui_language, import_tunnel,
  delete_tunnel, managed_connect_server, managed_disconnect_server, managed_login,
  managed_get_settings,
}

-- No tunnel of the list has the id.
abbrev IsFresh : String → List TunnelInfo → Type 0
IsFresh id ts = All (λ t. (t.id == id) ≡ false) ts

splice-append :
    (id : String) (t : TunnelInfo) (ts : List TunnelInfo)
    → (t.id == id) ≡ true
    → IsFresh id ts
    → splice id (ts ++ t ∷ []) ≡ ts
unfolding splice
splice-append id t [] same fresh = rw same refl
splice-append id t (u ∷ ts) same (other, fresh) =
    rw other (ap (λ rest. u ∷ rest) (splice-append id t ts same fresh))

module _ {W : Type 0} (app : App W) where
  -- In a browser, connecting to a server and disconnecting from it again succeeds and leaves the
  -- mock as it was, if none of its tunnels had the server's tunnel id.
  pub connect_server-disconnect_server :
      (id name totp_code : String) (m : Mock) (w : W)
      → IsFresh (managed_id id) m.tunnels
      → (managed_connect_server false app id name totp_code >>= λ _.
            managed_disconnect_server false app id)
          (m, w)
        ≡ (ok tt, (m, w))
  unfolding managed_connect_server managed_disconnect_server push_mock mock_connection ◌>>=◌
  connect_server-disconnect_server id name totp_code m w fresh =
      ap (λ ts. (ok tt, (record m { tunnels = ts }, w)))
        (splice-append (managed_id id) (mock_connection id name) m.tunnels (eq_refl (managed_id id))
          fresh)

  -- In a browser, importing a tunnel and deleting the tunnel that the import answered succeeds and
  -- leaves the mock as it was, if the id that the import draws is new.
  pub import_tunnel-delete_tunnel :
      (fresh name content : String) (m : Mock) (w : W)
      → IsFresh fresh m.tunnels
      → (import_tunnel false app fresh name content >>= λ t. delete_tunnel false app t.id) (m, w)
        ≡ (ok tt, (m, w))
  unfolding import_tunnel delete_tunnel push_mock mock_import ◌>>=◌
  import_tunnel-delete_tunnel fresh name content m w is_fresh =
      ap (λ ts. (ok tt, (record m { tunnels = ts }, w)))
        (splice-append fresh (mock_import fresh name) m.tunnels (eq_refl fresh) is_fresh)

  -- In a browser, a sign-in succeeds and the settings read after it are the blank ones, which say
  -- that nobody is signed in.
  pub login_forgotten :
      (username password totp_code : String) (m : Mock) (w : W)
      → ((managed_login false app username password totp_code >>= λ _.
            managed_get_settings false app)
          (m, w)).0
        ≡ ok blank_settings
  unfolding managed_login managed_get_settings ◌>>=◌
  login_forgotten username password totp_code m w = refl

  caught :
      {A : Type 0} (call : Async (State W) A) (a : A) (s : State W)
      → (answer : A) × ((catch call (λ _. pure a) s).0 ≡ ok answer)
  unfolding catch pure
  caught call a s = elim (Outcome-cases (call s).0) [
    | inl (b, e) ↦ (b, rw e refl)
    | inr (x, e) ↦ (a, rw e refl)
  ]

  -- Whatever the bindings do and wherever the page runs, asking for the system's language, placing
  -- the tray window, telling the language and asking whether the service runs never throw.
  pub never_throws :
      (wails : Bool) (lang : String) (width height : ℕ) (s : State W)
      → ((answer : String) × ((system_language wails app s).0 ≡ ok answer))
        × ((answer : Bool) × ((place_tray_window wails app width height s).0 ≡ ok answer))
        × ((answer : Unit {0}) × ((set_ui_language wails app lang s).0 ≡ ok answer))
        × ((answer : Bool) × ((is_daemon_running wails app s).0 ≡ ok answer))
  unfolding system_language place_tray_window set_ui_language is_daemon_running pure
  never_throws false lang width height s = (("", refl), (false, refl), (tt, refl), (false, refl))
  never_throws true lang width height s =
      (caught _ "" s, caught _ false s, caught _ tt s, caught _ false s)
