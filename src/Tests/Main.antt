-- ===== src/Tests/Main.antt =====
-- The main view, with one tunnel, one managed server and a service that answers at once.
use pro_identity_access.Base.{
  ℕ, arith, String, true, false, ◌≡◌, refl, none, some, [], ◌∷◌, ◌||◌, ◌==◌, values, lookup,
  if◌then◌else◌,
}
use pro_identity_access.Async.{Async, ok, threw, plain, message_of}
use pro_identity_access.Desktop.Types.{TunnelInfo, ServerInfo, connected, error}
use pro_identity_access.Desktop.Managed
use pro_identity_access.Desktop.Managed.{ManagedStore}
use pro_identity_access.Desktop.Tunnels
use pro_identity_access.Desktop.Setup
use pro_identity_access.Desktop.Update
use pro_identity_access.Desktop.OpenVpn.{ErrorTexts}
use pro_identity_access.Desktop.Traffic
use pro_identity_access.Desktop.Traffic.Window.{IsWindow, initial-IsWindow}
use pro_identity_access.Desktop.Main.State.{View, State}
use pro_identity_access.Desktop.Main.Collect.{collect, is_tunnel, is_session, collect_lem}
use pro_identity_access.Desktop.Main.Connect.{
  ConnectApi, wait, is_cancelled, is_waiting, set_status, push_connect, connect_managed,
}
use pro_identity_access.Desktop.Main.Connect.Rounds.{Waits, here, Round, Stops}
use pro_identity_access.Desktop.Main.Connect.Waiting.{wait-Stops}
use pro_identity_access.Desktop.Main.Connect.Approved.{Connected, left, push_connect_approved}
use pro_identity_access.Desktop.Main.Connect.Runs.{Stopped, connect_managed_twice}
use pro_identity_access.Desktop.Main.Actions.{ActionsApi, cancel_sheet}
use pro_identity_access.Desktop.Main.Actions.Cancel.{cancel_sheet_lem}
use pro_identity_access.Tests.Client.{whole}

abbrev pub paris : ServerInfo
paris = record {
  id = "p";
  name = "Paris";
  endpoint = "paris.example.com";
  port = 51820;
  public_key = "";
  subnet = "10.8.1.0/24";
  dns = none;
}

abbrev pub home : TunnelInfo
home = record {
  id = "h";
  name = "Home";
  status = connected;
  addresses = [];
  dns = [];
  mtu = 1420;
  listen_port = 0;
  private_key = "";
  peers = [];
  error = none;
  is_managed = none;
}

abbrev texts : ErrorTexts
texts = record { key_passphrase_required = "passphrase"; key_passphrase_wrong = "wrong" }

-- A run waits for the server.
abbrev shown : View
shown = record {
  tunnels = record Tunnels.initial { tunnels = home ∷ [] };
  setup = Setup.initial;
  updates = Update.initial (record { writable = true; snooze = none });
  sessions = record { sessions = [] };
  pending_server_id = some "p";
  totp_for_server = some paris;
  push_approving_server = none;
  push_auth_available = true;
  push_status = "pending";
  push_driven = true;
  runs = record { server_id = "p"; cancelled = false } ∷ [];
  current_run = some 0;
  last_server_id = some "p";
  stored_server_id = some "p";
  storage_writable = true;
  show_login = false;
  toasts = [];
  last_failure = ("", 0);
}

abbrev store : ManagedStore
store = record Managed.initial {
  servers =
      record {
        server = paris;
        connected = false;
        tunnel_id = none;
        connecting = false;
        error = none;
      }
      ∷ [];
}

abbrev pub start : State (Unit {0})
start = (store, (shown, tt))

abbrev gives : {A : Type 0} → A → Async (State (Unit {0})) A
gives a s = (ok a, s)

-- Every request is approved at once.
abbrev pub api : ConnectApi (Unit {0})
api = record {
  connect_server = λ _ _. gives tt;
  connect_server_push = λ _ _ _. gives home;
  create_push_auth = λ _. gives "r1";
  poll_push_auth = λ _. gives "approved";
  load_servers = gives tt;
  delay = gives tt;
  now = gives 0;
  includes = λ _ _. false;
  from_part = λ text _. text;
}

abbrev actions : ActionsApi (Unit {0})
actions = record {
  connecting = api;
  connect_tunnel = λ _. gives tt;
  disconnect_tunnel = λ _ s. (threw (plain "busy"), s);
  disconnect_openvpn = λ _. gives tt;
  load_sessions = gives tt;
  disconnect_managed = λ _. gives tt;
  drop_prefix = λ _ text. text;
}

abbrev failed : TunnelInfo
failed = record home { status = error; error = some "handshake timed out" }

collect_lem_example :
    IsWindow whole (collect whole (home ∷ []) [] (Traffic.initial whole))
    × ((k : String)
        → lookup k (collect whole (home ∷ []) [] (Traffic.initial whole)).history ≡ (
            if is_tunnel k (home ∷ []) || is_session k (values [])
            then lookup k (Traffic.initial whole).history
            else none))
collect_lem_example =
    collect_lem whole (home ∷ []) [] (Traffic.initial whole) (initial-IsWindow whole)

wait-Stops_example :
    (n : ℕ) × (t : State (Unit {0})) × Waits api paris 0 "r1" 45 start n t
    × Stops api paris 0 "r1" n t (wait api paris 0 "r1" 45 start)
wait-Stops_example = wait-Stops api paris 0 "r1" 45 start

abbrev round : Round api paris 0 "r1" start "approved" start
unfolding is_cancelled
round = record {
  slept = start;
  open_before = refl;
  sleeps = refl;
  open_asleep = refl;
  polls = refl;
  open_after = refl;
}

push_connect_approved_example :
    (m : ManagedStore) × (v : View) × Connected paris home store m v
    × (push_connect api paris 0 start ≡ (ok tt, left api paris 0 (m, (v, tt))))
push_connect_approved_example =
    push_connect_approved api paris 0 "r1" start start start start store
      (set_status "approved" shown) tt 44 home (record { at = λ s. (tt, refl) }) refl
      (here 45 start) round refl

-- The service wants an approval, and another attempt waits already.
abbrev strict : ConnectApi (Unit {0})
strict = record api {
  connect_server = λ _ _ s. (threw (plain "require_push_auth"), s);
  includes = λ text part. text == part;
}

abbrev lyon : ServerInfo
lyon = record paris { id = "l"; name = "Lyon" }

abbrev asked : View
asked = record shown { pending_server_id = some "l" }

connect_managed_twice_example :
    (x : View) × (connect_managed strict lyon (store, (shown, tt))
      ≡ push_connect strict lyon 1 (store, (x, tt)))
    × (is_cancelled 1 x ≡ false)
    × Stopped (some 0) x
    × (x.totp_for_server ≡ some lyon)
    × (connect_managed strict lyon (store, (x, tt)) ≡ (ok tt, (store, (x, tt))))
unfolding is_waiting message_of
connect_managed_twice_example =
    connect_managed_twice strict lyon (plain "require_push_auth") store store shown asked tt tt refl
      refl refl (omega arith)

cancel_sheet_lem_example :
    let s : State (Unit {0}) = (store, (cancel_sheet shown, tt)) in
    (wait api paris 0 "r1" 45 s ≡ (ok tt, s))
    × ((server_id : String) → is_waiting server_id (cancel_sheet shown) ≡ false)
    × ((cancel_sheet shown).totp_for_server ≡ none)
    × ((cancel_sheet shown).pending_server_id ≡ none)
cancel_sheet_lem_example = cancel_sheet_lem api paris "r1" 44 0 store shown tt refl (omega arith)
