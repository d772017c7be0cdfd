-- ===== src/Desktop/Main/Events.antt =====
-- client/frontend/src/App.tsx: the handlers of the events that the service sends.
pub mod Signals
use pro_identity_access.Base.{
  ℕ, ◌*◌, String, Bool, true, false, not, ◌&&◌, ◌||◌, Option, none, some, List, [], ◌∷◌, find,
  or_else, truthy, lookup, ◌==◌, if◌then◌else◌,
}
use Prim.Native.String
use pro_identity_access.Desktop.Types.{
  TunnelInfo, TunnelStatus, connected, connecting, disconnected, error, StatsInfo,
}
use pro_identity_access.Desktop.Managed
use pro_identity_access.Desktop.Managed.{ManagedStore}
use pro_identity_access.Desktop.Tunnels.{TunnelStore, update_tunnel, update_stats}
use pro_identity_access.Desktop.Setup.{SetupStore}
use pro_identity_access.Desktop.Update.{UpdateState, apply_event}
use pro_identity_access.Desktop.OpenVpn.{
  OpenVpnStatus, ErrorTexts, ovpn_prefix, ovpn_error_text, apply,
}
use pro_identity_access.Desktop.Traffic.{Number, TrafficHistory, push_sample}
use pro_identity_access.Desktop.Main.Focus.{is_error, is_connected_status}
use pro_identity_access.Desktop.Main.State.{View, toast, toast_failure, warning, revoked}

-- The error that is told: one that is not empty, and new.
abbrev same_error : String → Option String → Bool
same_error e none = false
same_error e (some f) = f == e

abbrev news :
    TunnelStatus → Option String → (before : Option (TunnelStatus × Option String)) → Option String
news status none before = none
news status (some e) none = if is_error status && truthy e then some e else none
news status (some e) (some (status', e')) =
    if is_error status && truthy e && (not (is_error status') || not (same_error e e'))
    then some e
    else none

abbrev tell : (now : ℕ) → Option String → View → View
tell now none v = v
tell now (some msg) v = toast_failure now msg v

abbrev seen_tunnel : Option TunnelInfo → Option (TunnelStatus × Option String)
seen_tunnel none = none
seen_tunnel (some t) = some (t.status, t.error)

abbrev seen_session : Option OpenVpnStatus → Option (TunnelStatus × Option String)
seen_session none = none
seen_session (some s) = some (s.status, s.error)

-- 'tunnel.changed'
unfoldable pub tunnel_changed : (now : ℕ) → TunnelInfo → View → View
tunnel_changed now info v =
    tell now
      (news info.status info.error (seen_tunnel (find (λ t. t.id == info.id) v.tunnels.tunnels)))
      (record v { tunnels = update_tunnel info v.tunnels })

-- 'stats.update', on the counters and the chart; `now` is in milliseconds
unfoldable stats_update :
    (N : Number)
    → (now : ℕ) → StatsInfo
    → TunnelStore × TrafficHistory N
    → TunnelStore × TrafficHistory N
stats_update N now stats (ts, history) =
    (update_stats stats ts, push_sample N stats.tunnel_id now stats.rx_bytes stats.tx_bytes history)

-- 'openvpn.changed': the counters of a session that is up go where those of the tunnels go.
abbrev session_stats :
    (N : Number)
    → (now : ℕ) → OpenVpnStatus
    → TunnelStore × TrafficHistory N
    → TunnelStore × TrafficHistory N
unfolding stats_update
session_stats N now st s =
    if not (truthy st.id)
    then s
    else if is_connected_status st.status
    then stats_update N now
        (record {
          tunnel_id = String.◌++◌ ovpn_prefix st.id;
          rx_bytes = st.rx_bytes;
          tx_bytes = st.tx_bytes;
          last_handshake = or_else st.connected_at 0;
        })
        s
    else s

-- The text of the failure of a session, in the UI's language where the error has a code.
abbrev session_failure : ErrorTexts → OpenVpnStatus → Option String → Option String
session_failure texts st none = none
session_failure texts st (some e) =
    some (String.◌++◌ st.name (String.◌++◌ ": " (or_else (ovpn_error_text texts st) "undefined")))

-- The rest of 'openvpn.changed': the table of sessions, and a failure that is new.
abbrev openvpn_changed : ErrorTexts → (now : ℕ) → OpenVpnStatus → View → View
openvpn_changed texts now st v =
    if truthy st.id
    then tell now
        (session_failure texts st
          (news st.status st.error (seen_session (lookup st.id v.sessions.sessions))))
        (record v { sessions = apply st v.sessions })
    else v

abbrev lost_text : Option String → String → String
lost_text none reason = reason
lost_text (some name) reason =
    if truthy name then String.◌++◌ name (String.◌++◌ ": " reason) else reason

-- 'wgprofile.lost'
abbrev profile_lost : (now : ℕ) → (name reason : Option String) → View → View
profile_lost now name none v = v
profile_lost now name (some reason) v =
    if truthy reason then toast_failure now (lost_text name reason) v else v

-- 'update.state'
abbrev update_state : (update_failed : String) → UpdateState → View → View
update_state update_failed st v = record v { updates = apply_event update_failed st v.updates }

abbrev no_tunnels : TunnelStore → TunnelStore
no_tunnels ts = record ts { tunnels = []; selected_id = none; stats = []; loading = false }

-- 'auth.expired', with the text of its toast: only the session is gone.
unfoldable pub auth_expired : String → ManagedStore × View → ManagedStore × View
auth_expired text (m, v) = (
  record m {
    servers = [];
    settings = record m.settings { is_admin = false; logged_in = false };
    loading = false;
    error = none;
  },
  record (toast text warning v) { tunnels = no_tunnels v.tunnels; show_login = true },
)

-- 'installation_revoked': the setup begins anew, and the last server is forgotten.
unfoldable pub installation_revoked : String → ManagedStore × View → ManagedStore × View
installation_revoked text (m, v) = (
  record m { servers = []; settings = Managed.initial.settings; loading = false; error = none },
  record (toast text revoked v) {
    tunnels = no_tunnels v.tunnels;
    setup = record {
      setup_done = false;
      step = "mode";
      mode = none;
      server_url = "";
      device_name = "";
      loading = false;
      error = none;
    };
    stored_server_id = if v.storage_writable then none else v.stored_server_id;
    last_server_id = none;
  },
)
