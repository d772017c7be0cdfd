-- ===== src/Desktop/Main/Actions.antt =====
-- client/frontend/src/App.tsx: what the main view does on the user's command: connect, disconnect,
-- the sheet that asks for a code, and the setup wizard once more. `with_api` stands for the calls of
-- the local service, each with the timer that `withConnectTimeout` races it with.
pub mod Cancel
pub mod Disconnect
use Prim.Native.String
use pro_identity_access.Base.{
  ℕ, String, Bool, true, false, Option, none, some, List, find, or_else, or_some, ◌==◌,
  if◌then◌else◌,
}
use text.Mathlib.Text.{starts_with}
use pro_identity_access.Async.{Async, Thrown, message_of, catch, throw, pure, ◌>>=◌, ◌>>◌}
use pro_identity_access.Desktop.Types.{ServerInfo, ServerStatus, TunnelInfo}
use pro_identity_access.Desktop.OpenVpn.{ovpn_prefix, is_openvpn_tunnel}
use pro_identity_access.Desktop.Setup.{SetupStore}
use pro_identity_access.Desktop.Main.Focus.{
  is_synth, remove_first, synth_prefix, find_server, server_of,
}
use pro_identity_access.Desktop.Main.State.{View, State, change, view, toast, warning}
use pro_identity_access.Desktop.Main.Connect.{ConnectApi, cancel_current, connect_managed}

pub record ActionsApi (W : Type 0) : Type 0 where
  pub connecting : ConnectApi W
  pub connect_tunnel : (id : String) → Async (State W) (Unit {0})  -- `connect` of the tunnel store
  pub disconnect_tunnel : (id : String) → Async (State W) (Unit {0})  -- `disconnect` of the tunnel store
  pub disconnect_openvpn : (profile_id : String) → Async (State W) (Unit {0})
  pub load_sessions : Async (State W) (Unit {0})  -- `load` of the session store
  pub disconnect_managed : (tunnel_id : String) → Async (State W) (Unit {0})
  pub drop_prefix : (prefix text : String) → String  -- `text.slice(prefix.length)`

-- `onSwitchToCode`
unfoldable switch_to_code : View → View
unfolding cancel_current
switch_to_code v = record (cancel_current v) { push_driven = false }

-- `onCancel`
unfoldable pub cancel_sheet : View → View
unfolding switch_to_code
cancel_sheet v = record (switch_to_code v) { totp_for_server = none; pending_server_id = none }

-- `handleReRunSetup`, as far as the setup store goes
abbrev rerun_setup : View → View
rerun_setup v = record v {
  setup = record v.setup { setup_done = false; step = "mode"; mode = none; error = none };
}

unfoldable pub handle_connect_intent : ServerInfo → View → View
handle_connect_intent srv v = record v { pending_server_id = some srv.id }

abbrev is_managed_tunnel : Option TunnelInfo → Bool
is_managed_tunnel none = false
is_managed_tunnel (some t) = or_else t.is_managed false

-- The tunnel that is being disconnected, as the store has it now.
abbrev managed_now : String → View → Bool
managed_now id v = is_managed_tunnel (find (λ t. t.id == id) v.tunnels.tunnels)

module _ {W : Type 0} (api : ActionsApi W) where
  -- `onSubmit` and `onPushApproved`: the connection, after which the sheet is closed.
  unfoldable connect_and_close :
      ServerInfo → (Async (State W) (Unit {0})) → Async (State W) (Unit {0})
  connect_and_close srv connection = do
    change (λ v. record v { pending_server_id = some srv.id })
    catch (do connection; change (λ v. record v { totp_for_server = none }))
        λ e. do change (λ v. record v { pending_server_id = none }); throw e

  abbrev submit_code : Option ServerInfo → (code : String) → Async (State W) (Unit {0})
  unfolding switch_to_code connect_and_close
  submit_code none code = pure tt
  submit_code (some srv) code = do
    change switch_to_code
    connect_and_close srv (api.connecting.connect_server srv code)

  abbrev push_approved : Option ServerInfo → (request_id : String) → Async (State W) (Unit {0})
  unfolding connect_and_close
  push_approved none request_id = pure tt
  push_approved (some srv) request_id =
      connect_and_close srv
        (do api.connecting.connect_server_push srv.id srv.name request_id; pure tt)

  abbrev connect_if : Option ServerInfo → Async (State W) (Unit {0})
  connect_if none = pure tt
  connect_if (some srv) = connect_managed api.connecting srv

  -- The connection in focus, the servers and the preferred server are those the view was drawn with.
  abbrev handle_connect :
      Option TunnelInfo
      → List ServerStatus
      → (preferred : Option ServerInfo) → Async (State W) (Unit {0})
  unfolding is_synth is_openvpn_tunnel
  handle_connect none servers preferred = connect_if preferred
  handle_connect (some t) servers preferred =
      if is_openvpn_tunnel (some t)
      then pure tt
      else if is_synth (some t)
      then connect_if
          (or_some (server_of (find_server (remove_first synth_prefix t.id) servers)) preferred)
      else catch (api.connect_tunnel t.id) (λ _. pure tt)

  -- `disconnectById`, before its `catch`
  unfoldable pub disconnect_live : (id : String) → Async (State W) (Unit {0})
  disconnect_live id =
      if starts_with id ovpn_prefix
      then (do api.disconnect_openvpn (api.drop_prefix ovpn_prefix id); api.load_sessions)
      else (do
        v ← view
        if managed_now id v
            then (do api.disconnect_managed id; api.connecting.load_servers)
            else api.disconnect_tunnel id)

  unfoldable disconnect_by_id : (id : String) → Async (State W) (Unit {0})
  unfolding disconnect_live toast
  disconnect_by_id id = catch (disconnect_live id) (λ e. change (toast (message_of e) warning))

  unfoldable pub handle_disconnect : Option TunnelInfo → Async (State W) (Unit {0})
  unfolding is_synth disconnect_by_id
  handle_disconnect none = pure tt
  handle_disconnect (some t) =
      if is_synth (some t)
      then pure tt
      else (do change (λ v. record v { pending_server_id = none }); disconnect_by_id t.id)
