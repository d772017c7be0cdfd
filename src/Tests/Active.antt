-- ===== src/Tests/Active.antt =====
-- The list of live connections at a concrete input: one tunnel that is up and one that is not, and
-- a session.
use pro_identity_access.Base.{String, ◌≡◌, refl, inl, inr, none, some, List, [], ◌∷◌, lookup}
use pro_identity_access.Desktop.Types.{TunnelInfo, TunnelStatus, connected, disconnected}
use pro_identity_access.Desktop.OpenVpn.{OpenVpnStatus}
use pro_identity_access.Desktop.Active.{active_connections}
use pro_identity_access.Desktop.Active.Passes.{active_connections_since}

abbrev tunnel : String → TunnelStatus → TunnelInfo
tunnel id status = record {
  id = id;
  name = "Office";
  status = status;
  addresses = "10.0.0.2/32" ∷ [];
  dns = [];
  mtu = 1420;
  listen_port = 0;
  private_key = "";
  peers = [];
  error = none;
  is_managed = none;
}

abbrev session : OpenVpnStatus
session = record {
  id = "s1";
  name = "Lab";
  status = connected;
  dev_type = "tun";
  ip = some "10.9.0.2";
  rx_bytes = 1;
  tx_bytes = 2;
  error = none;
  error_code = none;
  remote = some "203.0.113.10:1194 (UDP)";
  networks = some ("0.0.0.0/0" ∷ []);
  connected_at = some 50;
}

abbrev tunnels : List TunnelInfo
tunnels = tunnel "a" connected ∷ tunnel "b" disconnected ∷ []

active_connections_since_example :
    lookup "a"
      (active_connections "all traffic" 100 [] (("s1", session) ∷ []) tunnels (("a", 60) ∷ [])).1
    ≡ some 60
unfolding lookup
active_connections_since_example =
    active_connections_since "a" "all traffic" 60 100 [] (("s1", session) ∷ []) tunnels
      (("a", 60) ∷ []) refl (inr refl, (inl refl, tt))
