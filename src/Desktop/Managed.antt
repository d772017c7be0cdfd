-- ===== src/Desktop/Managed.antt =====
-- client/frontend/src/stores/useManagedStore.ts: sign-in state and the managed servers. An action
-- works on the store and on `W`, the rest of the program's state; the functions of the bridge
-- (client/frontend/src/wailsbridge.ts) that it awaits are fields of `ManagedApi`.
pub mod Actions
pub mod Consistent
pub mod Connecting
pub mod SignIn
pub mod Servers
use pro_identity_access.Base.{
  String, Bool, true, false, Option, none, some, List, [], map, ◌==◌, if◌then◌else◌, Dict, lookup,
  insert_all, has, or_else,
}
use pro_identity_access.Async.{Async, Thrown, string_of, catch, throw, pure, both, set, ◌>>=◌, ◌>>◌}
use pro_identity_access.Desktop.Types.{
  ServerStatus, ServerInfo, ManagedSettings, ManagedLoginResult, TunnelInfo,
}

pub record ManagedStore : Type 0 where
  pub settings : ManagedSettings
  pub servers : List ServerStatus
  pub loading : Bool
  pub error : Option String

abbrev pub State : Type 0 → Type 0
State W = ManagedStore × W

pub record ManagedApi (W : Type 0) : Type 0 where
  pub get_settings : Async (State W) ManagedSettings
  pub list_servers : Async (State W) (List ServerInfo)
  pub active_servers : Async (State W) (List String)
  pub active_first : Bool  -- which of the two rejects first, if both do
  pub save_server_url : String → Async (State W) (Unit {0})
  pub login : (username password totp_code : String) → Async (State W) ManagedLoginResult
  pub login_with_push :
      (username password push_request_id : String) → Async (State W) ManagedLoginResult
  pub logout : Async (State W) (Unit {0})
  pub connect_server : (id name totp_code : String) → Async (State W) TunnelInfo
  pub disconnect_server : (id : String) → Async (State W) (Unit {0})

-- What `login` returns to the sign-in sheet.
pub record LoginReply : Type 0 where
  pub require_totp : Bool
  pub push_auth_enabled : Bool
  pub push_request_id : String

unfoldable pub initial : ManagedStore
initial = record {
  settings = record {
    server_url = "";
    username = "";
    is_admin = false;
    logged_in = false;
    vpn_name = "";
    totp_enabled = false;
    allow_personal_import = none;
  };
  servers = [];
  loading = false;
  error = none;
}

-- One entry of the list that `loadServers` stores.
unfoldable pub status_of : List String → Dict ServerStatus → ServerInfo → ServerStatus
status_of active previous s = record {
  server = s;
  connected = has s.id active;
  tunnel_id =
      if has s.id active
      then elim (lookup s.id previous) [ none ↦ none | some before ↦ before.tunnel_id ]
      else none;
  connecting = false;
  error = none;
}

-- `new Map(get().servers.map(ss => [ss.server.id, ss]))`
unfoldable pub by_id : List ServerStatus → Dict ServerStatus
by_id servers = insert_all (map (λ ss. (ss.server.id, ss)) servers) []

unfoldable pub reload : List ServerInfo → List String → ManagedStore → ManagedStore
reload listed active s = record s { servers = map (status_of active (by_id s.servers)) listed }

-- `s.servers.map(ss => ss.server.id === id ? f(ss) : ss)`
unfoldable pub at_server :
    String → (ServerStatus → ServerStatus) → List ServerStatus → List ServerStatus
at_server id f = map (λ ss. if ss.server.id == id then f ss else ss)

unfoldable pub signed_in : ManagedLoginResult → ManagedStore → ManagedStore
signed_in result s = record s {
  loading = false;
  settings = record s.settings {
    username = result.username;
    is_admin = result.is_admin;
    logged_in = true;
    totp_enabled = result.totp_enabled;
  };
}

unfoldable pub signed_out : ManagedStore → ManagedStore
signed_out s = record s {
  loading = false;
  servers = [];
  settings = record s.settings { username = ""; is_admin = false; logged_in = false };
}

-- The updates that the actions share.
abbrev pub start_loading : ManagedStore → ManagedStore
start_loading s = record s { loading = true; error = none }

abbrev pub fail_loading : Thrown → ManagedStore → ManagedStore
fail_loading e s = record s { loading = false; error = some (string_of e) }

abbrev fail : Thrown → ManagedStore → ManagedStore
fail e s = record s { error = some (string_of e) }

abbrev pub set_servers : (List ServerStatus → List ServerStatus) → ManagedStore → ManagedStore
set_servers f s = record s { servers = f s.servers }

-- The return values of the two branches of `login` that do not throw.
abbrev pub second_factor : ManagedLoginResult → LoginReply
second_factor result = record {
  require_totp = true;
  push_auth_enabled = or_else result.push_auth_enabled false;
  push_request_id = or_else result.push_request_id "";
}

abbrev pub complete : LoginReply
complete = record { require_totp = false; push_auth_enabled = false; push_request_id = "" }

abbrev pub begin : ServerStatus → ServerStatus
begin ss = record ss { connecting = true; error = none }

abbrev pub give_up : Thrown → ServerStatus → ServerStatus
give_up e ss = record ss { connecting = false; error = some (string_of e) }

abbrev pub go_up : TunnelInfo → ServerStatus → ServerStatus
go_up tunnel ss = record ss { connecting = false; connected = true; tunnel_id = some tunnel.id }

abbrev pub go_down : ServerStatus → ServerStatus
go_down ss = record ss { connecting = false; connected = false; tunnel_id = none }

module _ {W : Type 0} (api : ManagedApi W) where
  unfoldable pub load_settings : Async (State W) (Unit {0})
  load_settings =
      catch (do settings ← api.get_settings; set (λ s. record s { settings = settings }))
        λ _. pure tt

  unfoldable pub load_servers : Async (State W) (Unit {0})
  load_servers =
      catch
        (do
          (listed, active) ← both api.active_first api.list_servers api.active_servers
          set (reload listed active))
        λ e. set (fail e)

  unfoldable pub save_server_url : String → Async (State W) (Unit {0})
  unfolding load_settings
  save_server_url url = do
    set (λ s. record s { error = none })
    catch (do api.save_server_url url; load_settings) (λ e. do set (fail e); throw e)

  login_reply : ManagedLoginResult → Async (State W) LoginReply
  login_reply result =
      if result.require_totp
      then (do set (λ s. record s { loading = false }); pure (second_factor result))
      else (do set (signed_in result); pure complete)

  unfoldable pub login : (username password totp_code : String) → Async (State W) LoginReply
  unfolding login_reply
  login username password totp_code = do
    set start_loading
    catch (do result ← api.login username password totp_code; login_reply result)
        λ e. do set (fail_loading e); throw e

  unfoldable pub login_with_push :
      (username password push_request_id : String) → Async (State W) (Unit {0})
  login_with_push username password push_request_id = do
    set start_loading
    catch
        (do result ← api.login_with_push username password push_request_id; set (signed_in result))
        λ e. do set (fail_loading e); throw e

  -- The error of a failed sign-out is stored and not thrown.
  unfoldable pub logout : Async (State W) (Unit {0})
  logout = do set start_loading; catch (do api.logout; set signed_out) (λ e. set (fail_loading e))

  unfoldable pub connect_server : ServerInfo → (totp_code : String) → Async (State W) (Unit {0})
  unfolding at_server
  connect_server server totp_code = do
    set (set_servers (at_server server.id begin))
    catch
        (do
          tunnel ← api.connect_server server.id server.name totp_code
          set (set_servers (at_server server.id (go_up tunnel))))
        λ e. do set (set_servers (at_server server.id (give_up e))); throw e

  unfoldable pub disconnect_server : (server_id : String) → Async (State W) (Unit {0})
  unfolding at_server
  disconnect_server server_id = do
    set (set_servers (at_server server_id begin))
    catch (do api.disconnect_server server_id; set (set_servers (at_server server_id go_down)))
        λ e. do set (set_servers (at_server server_id (give_up e))); throw e

  unfoldable pub clear_error : Async (State W) (Unit {0})
  clear_error = set (λ s. record s { error = none })
