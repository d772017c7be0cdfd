-- ===== src/Desktop/Main/Focus.antt =====
-- client/frontend/src/App.tsx: which connection the main view shows, `focusedTunnel`, and the
-- tunnels that stand for a server that has none.
pub mod Priority
pub mod Names
use Prim.Native.Char.{Char, code}
use Prim.Native.String
use Prim.Native.String.{[], ◌∷◌}
use pro_identity_access.Base
use pro_identity_access.Base.{
  ℕ, String, Bool, true, false, Option, none, some, List, Dict, values, keep, find, first, or_else,
  or_some, truthy, nat_eq, ◌==◌, if◌then◌else◌,
}
use text.Mathlib.Text.{starts_with}
use pro_identity_access.Desktop.Types.{
  TunnelInfo, TunnelStatus, connected, connecting, disconnected, error, ServerInfo, ServerStatus,
}
use pro_identity_access.Desktop.OpenVpn.{
  OpenVpnStatus, ErrorTexts, openvpn_as_tunnel, is_openvpn_tunnel, is_up, is_live,
}
use pro_identity_access.Webui.Client.{decimal}

abbrev pub synth_prefix : String
synth_prefix = "__synth_"

-- `srv.dns ? [srv.dns] : []`
abbrev dns_of : Option String → List String
dns_of none = Base.[]
dns_of (some s) = if truthy s then Base.◌∷◌ s Base.[] else Base.[]

unfoldable pub synth_from_server : ServerInfo → TunnelStatus → TunnelInfo
synth_from_server srv status = record {
  id = String.◌++◌ synth_prefix srv.id;
  name = srv.name;
  status = status;
  addresses = Base.[];
  dns = dns_of srv.dns;
  mtu = 0;
  listen_port = 0;
  private_key = "";
  peers =
      Base.◌∷◌
        (record {
          public_key = "";
          endpoint = String.◌++◌ srv.endpoint (String.◌++◌ ":" (decimal srv.port));
          allowed_ips = Base.[];
          persistent_keepalive = 0;
        })
        Base.[];
  error = none;
  is_managed = some true;
}

unfoldable pub is_synth : Option TunnelInfo → Bool
is_synth none = false
is_synth (some t) = starts_with t.id synth_prefix

-- What follows a prefix.
after_prefix : (prefix text : String) → Option String
after_prefix [] s = some s
after_prefix (c ∷ p) [] = none
after_prefix (c ∷ p) (d ∷ s) = if nat_eq (code c) (code d) then after_prefix p s else none

-- `text.replace(part, '')`: the first place at which the part stands is cut out.
unfoldable pub remove_first : (part text : String) → String
unfolding after_prefix
remove_first part [] = []
remove_first part (c ∷ s) =
    let rest = remove_first part s in
    elim (after_prefix part (c ∷ s)) [ none ↦ c ∷ rest | some after ↦ after ]

abbrev pub server_of : Option ServerStatus → Option ServerInfo
server_of none = none
server_of (some ss) = some ss.server

-- `servers.find(s => s.server.id === id)`
abbrev pub find_server : String → List ServerStatus → Option ServerStatus
find_server id servers = find (λ ss. ss.server.id == id) servers

abbrev named_server : Option String → List ServerStatus → Option ServerInfo
named_server none servers = none
named_server (some id) servers = if truthy id then server_of (find_server id servers) else none

-- The server that connected last, or the first of the list.
unfoldable pub preferred_managed_server :
    (last_server_id : Option String) → List ServerStatus → Option ServerInfo
preferred_managed_server last_server_id servers =
    or_some (named_server last_server_id servers) (server_of (first servers))

abbrev pub is_error : TunnelStatus → Bool
is_error error = true
is_error _ = false

abbrev pub is_connected_status : TunnelStatus → Bool
is_connected_status connected = true
is_connected_status _ = false

abbrev pub is_connected_session : OpenVpnStatus → Bool
is_connected_session s = is_connected_status s.status

-- The live session that is shown: a connected one, or the first.
abbrev live_session : List OpenVpnStatus → Option OpenVpnStatus
live_session live = or_some (find is_connected_session live) (first live)

abbrev session_tunnel : ErrorTexts → Option OpenVpnStatus → Option TunnelInfo
session_tunnel texts none = none
session_tunnel texts (some s) = some (openvpn_as_tunnel texts s)

-- The server whose Connect button was just pressed.
abbrev pending_tunnel : Option String → List ServerStatus → Option TunnelInfo
pending_tunnel pending servers = elim (named_server pending servers) [
  | none ↦ none
  | some srv ↦ some (synth_from_server srv connecting)
]

abbrev selected_tunnel : Option String → List TunnelInfo → Option TunnelInfo
selected_tunnel none tunnels = none
selected_tunnel (some id) tunnels = if truthy id then find (λ t. t.id == id) tunnels else none

abbrev is_connecting_entry : Option ServerStatus → Bool
is_connecting_entry none = false
is_connecting_entry (some ss) = ss.connecting

abbrev preferred_tunnel : Option ServerInfo → List ServerStatus → Option TunnelInfo
preferred_tunnel none servers = none
preferred_tunnel (some srv) servers = some (
    synth_from_server srv
      (if is_connecting_entry (find_server srv.id servers) then connecting else disconnected))

-- What `focusedTunnel` depends on.
pub record Scene : Type 0 where
  pub tunnels : List TunnelInfo
  pub sessions : Dict OpenVpnStatus
  pub servers : List ServerStatus
  pub selected_id : Option String
  pub pending_server_id : Option String
  pub last_server_id : Option String

unfoldable pub focused_tunnel : ErrorTexts → Scene → Option TunnelInfo
unfolding preferred_managed_server
focused_tunnel texts s = or_some (find (λ t. is_up t.status) s.tunnels) (
    or_some (session_tunnel texts (live_session (keep is_live (values s.sessions)))) (
      or_some (find (λ t. is_error t.status) s.tunnels) (
        or_some (pending_tunnel s.pending_server_id s.servers) (
          or_some (selected_tunnel s.selected_id s.tunnels) (
            or_some (first s.tunnels) (
              preferred_tunnel (preferred_managed_server s.last_server_id s.servers) s.servers))))))

-- The last managed server to connect is remembered: the owner of the tunnel in focus, if it has one.
abbrev owner_to_remember : Option TunnelInfo → List ServerStatus → Option String
unfolding is_synth
owner_to_remember none servers = none
owner_to_remember (some t) servers =
    if is_synth (some t)
    then none
    else if or_else t.is_managed false
    then (if is_connected_status t.status
        then elim (find (λ ss. elim ss.tunnel_id [ none ↦ false | some id ↦ id == t.id ]) servers) [
          | none ↦ none
          | some ss ↦ some ss.server.id
        ]
        else none)
    else none

abbrev is_other : String → Option String → Bool
is_other id none = true
is_other id (some s) = if id == s then false else true

-- The selection follows the focus, unless this is no tunnel of the list.
abbrev selection_to_follow : Option TunnelInfo → (selected_id : Option String) → Option String
unfolding is_synth is_openvpn_tunnel
selection_to_follow none selected_id = none
selection_to_follow (some t) selected_id =
    if is_synth (some t)
    then none
    else if is_openvpn_tunnel (some t)
    then none
    else if is_other t.id selected_id
    then some t.id
    else none
