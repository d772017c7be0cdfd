-- ===== src/Desktop/Bridge/Mocks.antt =====
-- client/frontend/src/wailsbridge.ts: the data that the mock of a browser keeps and answers. The
-- mock's arrays are values here.
use Prim.Native.String
use pro_identity_access.Base.{
  String, true, false, none, List, [], ◌∷◌, ◌++◌, ◌==◌, truthy, if◌then◌else◌,
}
use pro_identity_access.Desktop.Types.{
  TunnelInfo, TunnelStatus, connected, disconnected, ManagedSettings, ServerInfo,
}
use pro_identity_access.Desktop.Update.{UpdateState, up_to_date}
use pro_identity_access.Desktop.Bridge.Bindings.{Mock}

unfoldable pub push_mock : TunnelInfo → Mock → Mock
push_mock t m = record m { tunnels = m.tunnels ++ t ∷ [] }

-- `findIndex` and `splice(idx, 1)`: the first tunnel of the id goes.
unfoldable pub splice : String → List TunnelInfo → List TunnelInfo
splice id [] = []
splice id (t ∷ ts) = if t.id == id then ts else t ∷ splice id ts

-- `find` and an assignment to its status: the first tunnel of the id changes.
unfoldable pub set_status : String → TunnelStatus → List TunnelInfo → List TunnelInfo
set_status id status [] = []
set_status id status (t ∷ ts) =
    if t.id == id then record t { status = status } ∷ ts else t ∷ set_status id status ts

abbrev pub managed_id : String → String
managed_id server_id = String.◌++◌ "managed-" server_id

unfoldable pub mock_import : (id name : String) → TunnelInfo
mock_import id name = record {
  id = id;
  name = if truthy name then name else "My Tunnel";
  status = disconnected;
  addresses = "10.0.0.2/24" ∷ [];
  dns = "1.1.1.1" ∷ [];
  mtu = 1420;
  listen_port = 0;
  private_key = "";
  peers = [];
  error = none;
  is_managed = none;
}

unfoldable pub mock_connection : (server_id name : String) → TunnelInfo
mock_connection server_id name = record {
  id = managed_id server_id;
  name = name;
  status = connected;
  addresses = "10.8.0.5/32" ∷ [];
  dns = "1.1.1.1" ∷ [];
  mtu = 1420;
  listen_port = 0;
  private_key = "";
  peers =
      record {
        public_key = "";
        endpoint = "vpn.example.com:51820";
        allowed_ips = "0.0.0.0/0" ∷ [];
        persistent_keepalive = 25;
      }
      ∷ [];
  error = none;
  is_managed = none;
}

abbrev pub blank_settings : ManagedSettings
blank_settings = record {
  server_url = "";
  username = "";
  is_admin = false;
  logged_in = false;
  vpn_name = "";
  totp_enabled = false;
  allow_personal_import = none;
}

abbrev pub mock_servers : List ServerInfo
mock_servers =
    record {
      id = "server-1";
      name = "EU West";
      endpoint = "eu.vpn.example.com";
      port = 51820;
      public_key = "";
      subnet = "10.8.1.0/24";
      dns = none;
    }
    ∷ record {
      id = "server-2";
      name = "US East";
      endpoint = "us.vpn.example.com";
      port = 51820;
      public_key = "";
      subnet = "10.8.2.0/24";
      dns = none;
    }
    ∷ []

abbrev pub mock_update : UpdateState
mock_update = record {
  state = up_to_date;
  supported = true;
  current_version = "0.0.0-dev";
  latest_version = none;
  mandatory = none;
  notes = none;
  progress = none;
  error = none;
}
