-- ===== src/Tests/Managed.antt =====
-- The managed store and the wizard, with a service that answers at once.
use pro_identity_access.Base.{true, false, inl, refl, none, some, List, [], ◌∷◌}
use pro_identity_access.Async.{Async, ok, threw, plain}
use pro_identity_access.Desktop.Types.{
  ServerInfo, ServerStatus, ManagedSettings, ManagedLoginResult, TunnelInfo, connected,
}
use pro_identity_access.Desktop.Managed.{ManagedApi, State, connect_server}
use pro_identity_access.Desktop.Managed.Actions.{Action, run_all}
use pro_identity_access.Desktop.Managed.Consistent.{CallsKeep, IsConsistent, run_all-IsConsistent}
use pro_identity_access.Desktop.Managed.Connecting.{Entries, Settled, connect_server-Settled}

abbrev paris : ServerInfo
paris = record {
  id = "p";
  name = "Paris";
  endpoint = "paris.example.com";
  port = 51820;
  public_key = "";
  subnet = "10.8.1.0/24";
  dns = none;
}

abbrev oslo : ServerInfo
oslo = record paris { id = "o"; name = "Oslo" }

abbrev down : ServerInfo → ServerStatus
down i = record {
  server = i;
  connected = false;
  tunnel_id = none;
  connecting = false;
  error = none;
}

abbrev tunnel : TunnelInfo
tunnel = record {
  id = "t1";
  name = "Paris";
  status = connected;
  addresses = [];
  dns = [];
  mtu = 1420;
  listen_port = 0;
  private_key = "";
  peers = [];
  error = none;
  is_managed = some true;
}

abbrev settings : ManagedSettings
settings = record {
  server_url = "https://vpn.example.com";
  username = "";
  is_admin = false;
  logged_in = false;
  vpn_name = "";
  totp_enabled = false;
  allow_personal_import = none;
}

abbrev ann : ManagedLoginResult
ann = record {
  username = "ann";
  is_admin = false;
  require_totp = false;
  totp_enabled = true;
  push_auth_enabled = none;
  push_request_id = none;
}

abbrev gives : {A : Type 0} → A → Async (State (Unit {0})) A
gives a s = (ok a, s)

abbrev refuses : {A : Type 0} → Async (State (Unit {0})) A
refuses s = (threw (plain "no"), s)

abbrev api : ManagedApi (Unit {0})
api = record {
  get_settings = gives settings;
  list_servers = gives (oslo ∷ paris ∷ []);
  active_servers = gives ("p" ∷ []);
  active_first = false;
  save_server_url = λ _. gives tt;
  login = λ _ _ _. gives ann;
  login_with_push = λ _ _ _. refuses;
  logout = gives tt;
  connect_server = λ _ _ _. gives tunnel;
  disconnect_server = λ _. refuses;
}

abbrev start : State (Unit {0})
start = (
  record {
    settings = settings;
    servers = down paris ∷ down oslo ∷ [];
    loading = false;
    error = none;
  },
  tt,
)

calls : CallsKeep IsConsistent api
calls = record {
  get_settings = record { at = λ s h. h };
  list_servers = record { at = λ s h. h };
  active_servers = record { at = λ s h. h };
  save_server_url = λ _. record { at = λ s h. h };
  login = λ _ _ _. record { at = λ s h. h };
  login_with_push = λ _ _ _. record { at = λ s h. h };
  logout = record { at = λ s h. h };
  connect_server = λ _ _ _. record { at = λ s h. h };
  disconnect_server = λ _. record { at = λ s h. h };
}

abbrev script : List (ManagedApi (Unit {0}) × Action)
script =
    (api, Action.connect_server paris "")
    ∷ (api, Action.load_servers)
    ∷ (api, Action.disconnect_server "p")
    ∷ []

run_all-IsConsistent_example : IsConsistent (run_all script start).0
run_all-IsConsistent_example =
    run_all-IsConsistent script start (calls, (calls, (calls, tt))) (inl refl, (inl refl, tt))

connect_server-Settled_example :
    Entries "p"
      (Settled (connect_server api paris "" start).0 true)
      (connect_server api paris "" start).1.0.servers
connect_server-Settled_example = connect_server-Settled api paris "" start

abbrev offline : ManagedApi (Unit {0})
offline = record api { list_servers = refuses }
