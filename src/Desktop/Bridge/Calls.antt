-- ===== src/Desktop/Bridge/Calls.antt =====
-- client/frontend/src/wailsbridge.ts: the calls of the desktop service. `wails` says whether the
-- bindings are there (`isWails()`) or the mock answers, and `app` is the bindings.
use pro_identity_access.Base.{
  ℕ, ◌-◌, String, Bool, true, false, Option, none, some, List, [], or_else, if◌then◌else◌,
}
use pro_identity_access.Async.{Async, pure, catch, set, get, ◌>>=◌, ◌>>◌}
use pro_identity_access.Desktop.Types.{
  TunnelInfo, StatsInfo, connected, disconnected, ManagedSettings, ManagedLoginResult, ServerInfo,
}
use pro_identity_access.Desktop.OpenVpn.{OpenVpnStatus}
use pro_identity_access.Desktop.Update.{UpdateState, idle}
use pro_identity_access.Desktop.Bridge.Bindings.{
  App, State, PushRequest, WgProfileView, OpenVpnProfileView,
}
use pro_identity_access.Desktop.Bridge.Mocks.{
  push_mock, splice, set_status, managed_id, mock_import, mock_connection, blank_settings,
  mock_servers, mock_update,
}

-- `result ?? []`
abbrev listed : {S A : Type 0} → Async S (Option (List A)) → Async S (List A)
listed call = do found ← call; pure (or_else found [])

module _ {W : Type 0} (wails : Bool) (app : App W) where
  -- `if (!isWails()) return mock; return await call`
  abbrev either : {A : Type 0} → Async (State W) A → Async (State W) A → Async (State W) A
  either mock call = if wails then call else mock

  unfoldable pub system_language : Async (State W) String
  system_language = either (pure "") (catch app.system_language (λ _. pure ""))

  place :
      Option ((width height : ℕ) → Async (State W) (Option Bool))
      → (width height : ℕ) → Async (State W) Bool
  place none width height = pure false
  place (some call) width height = do placed ← call width height; pure (or_else placed false)

  -- The binding is missing in an older build: then the window was not placed.
  unfoldable pub place_tray_window : (width height : ℕ) → Async (State W) Bool
  unfolding place
  place_tray_window width height =
      either (pure false) (catch (place app.place_tray_window width height) (λ _. pure false))

  tell : Option (String → Async (State W) (Unit {0})) → String → Async (State W) (Unit {0})
  tell none lang = pure tt
  tell (some call) lang = call lang

  unfoldable pub set_ui_language : String → Async (State W) (Unit {0})
  unfolding tell
  set_ui_language lang = either (pure tt) (catch (tell app.set_ui_language lang) (λ _. pure tt))

  unfoldable pub is_daemon_running : Async (State W) Bool
  is_daemon_running = either (pure false) (catch app.is_daemon_running (λ _. pure false))

  abbrev list_tunnels : Async (State W) (List TunnelInfo)
  list_tunnels = either (do m ← get; pure m.tunnels) (listed app.list_tunnels)

  -- `fresh` is the mock's random id.
  unfoldable pub import_tunnel : (fresh name content : String) → Async (State W) TunnelInfo
  import_tunnel fresh name content =
      either (do set (push_mock (mock_import fresh name)); pure (mock_import fresh name))
        (app.import_tunnel name content)

  unfoldable pub delete_tunnel : String → Async (State W) (Unit {0})
  delete_tunnel id =
      either (set (λ m. record m { tunnels = splice id m.tunnels })) (app.delete_tunnel id)

  abbrev connect_tunnel : String → Async (State W) (Unit {0})
  connect_tunnel id =
      either (set (λ m. record m { tunnels = set_status id connected m.tunnels }))
        (app.connect_tunnel id)

  abbrev disconnect_tunnel : String → Async (State W) (Unit {0})
  disconnect_tunnel id =
      either (set (λ m. record m { tunnels = set_status id disconnected m.tunnels }))
        (app.disconnect_tunnel id)

  -- `now` is the time in seconds.
  abbrev get_stats : (now : ℕ) → String → Async (State W) StatsInfo
  get_stats now id =
      either
        (pure (record {
          tunnel_id = id;
          rx_bytes = 1234567;
          tx_bytes = 987654;
          last_handshake = now - 30;
        }))
        (app.get_stats id)

  unfoldable pub managed_get_settings : Async (State W) ManagedSettings
  managed_get_settings = either (pure blank_settings) app.managed_get_settings

  abbrev managed_save_server_url : String → Async (State W) (Unit {0})
  managed_save_server_url url = either (pure tt) (app.managed_save_server_url url)

  unfoldable pub managed_login :
      (username password totp_code : String) → Async (State W) ManagedLoginResult
  managed_login username password totp_code =
      either
        (do
          set (λ m. record m {
            settings = record m.settings { username = username; logged_in = true };
          })
          pure (record {
            username = username;
            is_admin = false;
            require_totp = false;
            totp_enabled = false;
            push_auth_enabled = none;
            push_request_id = none;
          }))
        (app.managed_login username password totp_code)

  abbrev managed_login_with_push :
      (username password push_auth_id : String) → Async (State W) ManagedLoginResult
  managed_login_with_push username password push_auth_id =
      app.managed_login_with_push username password push_auth_id

  abbrev managed_logout : Async (State W) (Unit {0})
  managed_logout =
      either
        (set (λ m. record m { settings = record m.settings { username = ""; logged_in = false } }))
        app.managed_logout

  abbrev managed_list_servers : Async (State W) (List ServerInfo)
  managed_list_servers = either (pure mock_servers) app.managed_list_servers

  unfoldable pub managed_connect_server : (id name totp_code : String) → Async (State W) TunnelInfo
  managed_connect_server id name totp_code =
      either (do set (push_mock (mock_connection id name)); pure (mock_connection id name))
        (app.managed_connect_server id name totp_code)

  abbrev managed_connect_server_push : (id name push_auth_id : String) → Async (State W) TunnelInfo
  managed_connect_server_push id name push_auth_id =
      app.managed_connect_server_push id name push_auth_id

  abbrev managed_create_push_auth : String → Async (State W) PushRequest
  managed_create_push_auth context = app.managed_create_push_auth context

  abbrev managed_poll_push_auth : String → Async (State W) String
  managed_poll_push_auth request_id = app.managed_poll_push_auth request_id

  unfoldable pub managed_disconnect_server : String → Async (State W) (Unit {0})
  managed_disconnect_server id =
      either (set (λ m. record m { tunnels = splice (managed_id id) m.tunnels }))
        (app.managed_disconnect_server id)

  abbrev managed_active_servers : Async (State W) (List String)
  managed_active_servers = either (pure []) app.managed_active_servers

  abbrev managed_check_setup : Async (State W) Bool
  managed_check_setup = either (pure false) app.managed_check_setup

  abbrev managed_get_setup_step : Async (State W) String
  managed_get_setup_step = either (pure "mode") app.managed_get_setup_step

  abbrev managed_default_device_name : Async (State W) String
  managed_default_device_name = either (pure "ProIdentity Desktop") app.managed_default_device_name

  abbrev managed_complete_setup : Async (State W) (Unit {0})
  managed_complete_setup = either (pure tt) app.managed_complete_setup

  abbrev check_for_update : Async (State W) UpdateState
  check_for_update = either (pure mock_update) app.check_for_update

  abbrev install_update : Async (State W) (Unit {0})
  install_update = either (pure tt) app.install_update

  abbrev get_update_state : Async (State W) UpdateState
  get_update_state = either (pure (record mock_update { state = idle })) app.update_state

  abbrev managed_disconnect_by_tunnel_id : String → Async (State W) (Unit {0})
  managed_disconnect_by_tunnel_id x = either (pure tt) (app.managed_disconnect_by_tunnel_id x)

  abbrev managed_set_mode : String → Async (State W) (Unit {0})
  managed_set_mode x = either (pure tt) (app.managed_set_mode x)

  abbrev snooze_update : String → Async (State W) (Unit {0})
  snooze_update x = either (pure tt) (app.snooze_update x)

  abbrev managed_register_device : (server_url device_name : String) → Async (State W) (Unit {0})
  managed_register_device server_url device_name =
      either (pure tt) (app.managed_register_device server_url device_name)

  abbrev managed_list_wireguard_profiles : Async (State W) (List WgProfileView)
  managed_list_wireguard_profiles = either (pure []) (listed app.list_wireguard_profiles)

  abbrev managed_list_openvpn_profiles : Async (State W) (List OpenVpnProfileView)
  managed_list_openvpn_profiles = either (pure []) (listed app.list_openvpn_profiles)

  abbrev managed_list_openvpn_sessions : Async (State W) (List OpenVpnStatus)
  managed_list_openvpn_sessions = either (pure []) (listed app.list_openvpn_sessions)

  abbrev managed_disconnect_openvpn : String → Async (State W) (Unit {0})
  managed_disconnect_openvpn id = either (pure tt) (app.disconnect_openvpn id)

  abbrev delete_local_openvpn_profile : String → Async (State W) (Unit {0})
  delete_local_openvpn_profile id = either (pure tt) (app.delete_local_openvpn_profile id)

  abbrev forget_openvpn_password : String → Async (State W) (Unit {0})
  forget_openvpn_password id = either (pure tt) (app.forget_openvpn_password id)

  abbrev managed_connect_openvpn :
      (id source username password totp custom_ip key_passphrase : String)
      → (remember : Bool) → Async (State W) OpenVpnStatus
  managed_connect_openvpn id source username password totp custom_ip key_passphrase remember =
      app.connect_openvpn id source username password totp custom_ip key_passphrase remember

  abbrev import_openvpn_profile :
      (name config : String) → (requires_totp : Bool) → Async (State W) OpenVpnProfileView
  import_openvpn_profile name config requires_totp =
      app.import_openvpn_profile name config requires_totp
