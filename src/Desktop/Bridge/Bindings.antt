-- ===== src/Desktop/Bridge/Bindings.antt =====
-- client/frontend/src/wailsbridge.ts: the types of the desktop service's answers, the state of the
-- browser mock, and the bindings of client/frontend/wailsjs, which the build generates: a record
-- that the calls take as a parameter. A list that the service sends as null is `none`.
use pro_identity_access.Base.{ℕ, String, Bool, Option, List}
use pro_identity_access.Async.{Async}
use pro_identity_access.Desktop.Types.{
  TunnelInfo, StatsInfo, ManagedSettings, ManagedLoginResult, ServerInfo,
}
use pro_identity_access.Desktop.OpenVpn.{OpenVpnStatus}
use pro_identity_access.Desktop.Update.{UpdateState}

-- Who has an assigned WireGuard profile up.
pub record WgProfileHolder : Type 0 where
  pub name : String
  pub username : String
  pub device : String
  pub held_seconds : ℕ
  pub you : Bool
  pub this_device : Bool

pub record WgProfileView : Type 0 where
  pub id : String
  pub name : String
  pub description : Option String
  pub shared : Bool
  pub address : Option String
  pub endpoint : Option String
  pub in_use_by : Option WgProfileHolder

pub data Source : Type 0 where
  assigned local : Source

pub data DevType : Type 0 where
  tun tap : DevType

pub record OpenVpnProfileView : Type 0 where
  pub id : String
  pub name : String
  pub source : Source
  pub autofill_name : Option String
  pub requires_totp : Bool
  pub auth_user_pass : Bool
  pub dev_type : DevType
  pub allow_custom_ip : Bool
  pub custom_ip : Option String
  pub remembered_user : Option String
  pub has_saved_password : Bool
  pub key_encrypted : Bool
  pub has_saved_passphrase : Bool

-- What `managedCreatePushAuth` answers.
pub record PushRequest : Type 0 where
  pub request_id : String
  pub status : String
  pub expires_at : ℕ

-- `MOCK_TUNNELS` and `MOCK_MANAGED_SETTINGS`
pub record Mock : Type 0 where
  pub tunnels : List TunnelInfo
  pub settings : ManagedSettings

abbrev pub State : Type 0 → Type 0
State W = Mock × W

-- The generated bindings, as far as the calls below use them.
pub record App (W : Type 0) : Type 0 where
  pub system_language : Async (State W) String
  pub place_tray_window : Option ((width height : ℕ) → Async (State W) (Option Bool))
  pub set_ui_language : Option (String → Async (State W) (Unit {0}))
  pub is_daemon_running : Async (State W) Bool
  pub list_tunnels : Async (State W) (Option (List TunnelInfo))
  pub import_tunnel : (name content : String) → Async (State W) TunnelInfo
  pub delete_tunnel : String → Async (State W) (Unit {0})
  pub connect_tunnel : String → Async (State W) (Unit {0})
  pub disconnect_tunnel : String → Async (State W) (Unit {0})
  pub get_stats : String → Async (State W) StatsInfo
  pub managed_get_settings : Async (State W) ManagedSettings
  pub managed_save_server_url : String → Async (State W) (Unit {0})
  pub managed_login : String → String → String → Async (State W) ManagedLoginResult
  pub managed_login_with_push : String → String → String → Async (State W) ManagedLoginResult
  pub managed_logout : Async (State W) (Unit {0})
  pub managed_list_servers : Async (State W) (List ServerInfo)
  pub managed_connect_server : String → String → String → Async (State W) TunnelInfo
  pub managed_connect_server_push : String → String → String → Async (State W) TunnelInfo
  pub managed_create_push_auth : String → Async (State W) PushRequest
  pub managed_poll_push_auth : String → Async (State W) String
  pub managed_disconnect_server : String → Async (State W) (Unit {0})
  pub managed_active_servers : Async (State W) (List String)
  pub managed_check_setup : Async (State W) Bool
  pub managed_get_setup_step : Async (State W) String
  pub managed_disconnect_by_tunnel_id : String → Async (State W) (Unit {0})
  pub managed_set_mode : String → Async (State W) (Unit {0})
  pub managed_default_device_name : Async (State W) String
  pub managed_register_device : String → String → Async (State W) (Unit {0})
  pub managed_complete_setup : Async (State W) (Unit {0})
  pub check_for_update : Async (State W) UpdateState
  pub update_state : Async (State W) UpdateState
  pub install_update : Async (State W) (Unit {0})
  pub snooze_update : String → Async (State W) (Unit {0})
  pub list_wireguard_profiles : Async (State W) (Option (List WgProfileView))
  pub list_openvpn_profiles : Async (State W) (Option (List OpenVpnProfileView))
  pub list_openvpn_sessions : Async (State W) (Option (List OpenVpnStatus))
  pub disconnect_openvpn : String → Async (State W) (Unit {0})
  pub delete_local_openvpn_profile : String → Async (State W) (Unit {0})
  pub forget_openvpn_password : String → Async (State W) (Unit {0})
  pub connect_openvpn :
      (id source username password totp custom_ip key_passphrase : String)
      → (remember : Bool) → Async (State W) OpenVpnStatus
  pub import_openvpn_profile :
      (name config : String) → (requires_totp : Bool) → Async (State W) OpenVpnProfileView
