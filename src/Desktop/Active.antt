-- ===== src/Desktop/Active.antt =====
-- client/frontend/src/lib/activeConnections.ts: the list of live connections. `since` is the module's
-- map of the times at which a tunnel was first seen connected, and `now` the time in seconds.
pub mod Passes
use Prim.Native.Char.{Char, code}
use Prim.Native.String
use Prim.Native.String.{[], ◌∷◌}
use pro_identity_access.Base
use pro_identity_access.Base.{
  ℕ, String, Bool, true, false, not, ◌||◌, ◌++◌, Option, none, some, List, map, Dict, lookup,
  insert, without, values, or_else, truthy, has, keep, first, is_some, length, ltb, nat_eq, ◌==◌,
  if◌then◌else◌,
}
use text.Mathlib.Text.{starts_with}
use pro_identity_access.Desktop.Types.{
  TunnelInfo, StatsInfo, PeerInfo, TunnelStatus, connected, connecting, disconnected, error,
}
use pro_identity_access.Desktop.OpenVpn.{OpenVpnStatus, ovpn_prefix, strip_protocol, is_up, is_live}

pub data Kind : Type 0 where
  wireguard openvpn : Kind

pub record ActiveConnection : Type 0 where
  pub id : String
  pub name : String
  pub kind : Kind
  pub status : TunnelStatus
  pub ip : String
  pub networks : List String
  pub server : String
  pub since : ℕ
  pub rx : ℕ
  pub tx : ℕ

-- `FULL`
abbrev is_full : String → Bool
is_full n = n == "0.0.0.0/0" || n == "::/0"

-- `[...new Set(out)]`, from the texts seen so far
abbrev distinct_from : List String → List String → List String
distinct_from seen Base.[] = Base.[]
distinct_from seen (Base.◌∷◌ n ns) =
    let rest = distinct_from (Base.◌∷◌ n seen) ns in
    let skipped = distinct_from seen ns in if has n seen then skipped else Base.◌∷◌ n rest

-- A full tunnel is shown as `all_traffic`, in front.
unfoldable routes : (all_traffic : String) → List String → List String
routes all_traffic nets =
    let out = keep (λ n. not (is_full n)) nets in
    distinct_from Base.[] (if ltb (length out) (length nets) then Base.◌∷◌ all_traffic out else out)

-- The text before the first `stop`.
abbrev before : (stop : ℕ) → String → String
before stop [] = []
before stop (c ∷ s) = let rest = before stop s in if nat_eq (code c) stop then [] else c ∷ rest

abbrev has_char : ℕ → String → Bool
has_char stop [] = false
has_char stop (c ∷ s) = nat_eq (code c) stop || has_char stop s

abbrev but_last : String → String
but_last [] = []
but_last (c ∷ s) = let rest = but_last s in if truthy s then c ∷ rest else []

-- The host of an address in brackets, from the text after the bracket: `slice(1, -1)` where the
-- closing one is missing.
abbrev bracketed : String → String
bracketed s = if has_char b']' s then before b']' s else but_last s

abbrev plain_host : String → String
plain_host e = if truthy (before b':' e) then before b':' e else e

abbrev host_of : String → String
host_of [] = []
host_of (c ∷ s) = if nat_eq (code c) b'[' then bracketed s else plain_host (c ∷ s)

unfoldable host : (endpoint : String) → String
unfolding strip_protocol
host endpoint = host_of (strip_protocol endpoint)

abbrev peer_networks : List PeerInfo → List String
peer_networks Base.[] = Base.[]
peer_networks (Base.◌∷◌ p ps) = p.allowed_ips ++ peer_networks ps

abbrev first_endpoint : List PeerInfo → String
first_endpoint Base.[] = ""
first_endpoint (Base.◌∷◌ p _) = p.endpoint

abbrev first_address : List String → String
first_address Base.[] = ""
first_address (Base.◌∷◌ a _) = a

abbrev counter : (StatsInfo → ℕ) → Option StatsInfo → ℕ
counter f none = 0
counter f (some st) = f st

abbrev is_connected : TunnelStatus → Bool
is_connected connected = true
is_connected _ = false

-- What a pass over the tunnels does to the map of times.
unfoldable pub seen : (now : ℕ) → TunnelInfo → Dict ℕ → Dict ℕ
seen now t since =
    if not (is_up t.status)
    then without t.id since
    else if is_connected t.status
    then (if is_some (lookup t.id since) then since else insert t.id now since)
    else since

unfoldable pub wireguard_connection :
    (all_traffic : String) → Dict StatsInfo → Dict ℕ → TunnelInfo → ActiveConnection
unfolding routes host
wireguard_connection all_traffic stats since t = record {
  id = t.id;
  name = t.name;
  kind = wireguard;
  status = t.status;
  ip = first_address t.addresses;
  networks = routes all_traffic (peer_networks t.peers);
  server = host (first_endpoint t.peers);
  since = if is_connected t.status then or_else (lookup t.id since) 0 else 0;
  rx = counter (λ st. st.rx_bytes) (lookup t.id stats);
  tx = counter (λ st. st.tx_bytes) (lookup t.id stats);
}

unfoldable pub openvpn_connection : (all_traffic : String) → OpenVpnStatus → ActiveConnection
unfolding routes host
openvpn_connection all_traffic s = record {
  id = String.◌++◌ ovpn_prefix s.id;
  name = s.name;
  kind = openvpn;
  status = s.status;
  ip = or_else s.ip "";
  networks = routes all_traffic (or_else s.networks Base.[]);
  server = host (or_else s.remote "");
  since = or_else s.connected_at 0;
  rx = s.rx_bytes;
  tx = s.tx_bytes;
}

-- The loop over the tunnels: the connections, and the map of times after it.
unfoldable pub wireguard_connections :
    (all_traffic : String) (now : ℕ)
    → Dict StatsInfo
    → List TunnelInfo
    → Dict ℕ
    → List ActiveConnection × Dict ℕ
wireguard_connections all_traffic now stats Base.[] since = (Base.[], since)
wireguard_connections all_traffic now stats (Base.◌∷◌ t ts) since =
    let since' = seen now t since in
    let (rest, last) = wireguard_connections all_traffic now stats ts since' in
    (
      if is_up t.status
          then Base.◌∷◌ (wireguard_connection all_traffic stats since' t) rest
          else rest,
      last,
    )

-- `useActiveConnections`
unfoldable pub active_connections :
    (all_traffic : String) (now : ℕ)
    → Dict StatsInfo
    → Dict OpenVpnStatus
    → List TunnelInfo
    → Dict ℕ
    → List ActiveConnection × Dict ℕ
active_connections all_traffic now stats sessions tunnels since =
    let (listed, last) = wireguard_connections all_traffic now stats tunnels since in
    (listed ++ map (openvpn_connection all_traffic) (keep is_live (values sessions)), last)
