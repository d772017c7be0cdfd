-- ===== src/Desktop/Main/State.antt =====
-- client/frontend/src/App.tsx: the state that the main view's handlers work on: the stores, the
-- component's own state, and the toasts. The store of the managed servers stands beside the rest, so
-- that its actions run on this state as they are.
use pro_identity_access.Base.{
  ℕ, String, Bool, Option, some, List, [], ◌∷◌, ◌++◌, ◌==◌, ◌&&◌, ◌-◌, ltb, if◌then◌else◌,
}
use pro_identity_access.Async.{Async, ok}
use pro_identity_access.Desktop.Types.{ServerInfo}
use pro_identity_access.Desktop.Managed.{ManagedStore}
use pro_identity_access.Desktop.Tunnels.{TunnelStore}
use pro_identity_access.Desktop.Setup.{SetupStore}
use pro_identity_access.Desktop.Update.{UpdateStore}
use pro_identity_access.Desktop.OpenVpn.{OpenVpnStore}
use pro_identity_access.Desktop.Main.Focus.{Scene}

pub data ToastKind : Type 0 where
  info warning revoked : ToastKind

pub record Toast : Type 0 where
  pub text : String
  pub kind : ToastKind

-- One attempt to connect that waits for a push approval: the object of `pushConnectRef`.
pub record Run : Type 0 where
  pub server_id : String
  pub cancelled : Bool

pub record View : Type 0 where
  pub tunnels : TunnelStore
  pub setup : SetupStore
  pub updates : UpdateStore
  pub sessions : OpenVpnStore
  pub pending_server_id : Option String
  pub totp_for_server : Option ServerInfo
  pub push_approving_server : Option ServerInfo
  pub push_auth_available : Bool
  pub push_status : String
  pub push_driven : Bool
  pub runs : List Run  -- all of them, the oldest first
  pub current_run : Option ℕ  -- `pushConnectRef.current`, as a place in `runs`
  pub last_server_id : Option String
  pub stored_server_id : Option String  -- the item of localStorage
  pub storage_writable : Bool
  pub show_login : Bool
  pub toasts : List Toast
  pub last_failure : String × ℕ  -- `lastFailure`: the text and the time

-- What `focusedTunnel` reads of the state.
abbrev pub scene_of : ManagedStore × View → Scene
scene_of (m, v) = record {
  tunnels = v.tunnels.tunnels;
  sessions = v.sessions.sessions;
  servers = m.servers;
  selected_id = v.tunnels.selected_id;
  pending_server_id = v.pending_server_id;
  last_server_id = v.last_server_id;
}

abbrev pub State : Type 0 → Type 0
State W = ManagedStore × (View × W)

-- A change of the component's state or of another store.
abbrev pub change : {W : Type 0} → (View → View) → Async (State W) (Unit {0})
change f (m, (v, w)) = (ok tt, (m, (f v, w)))

abbrev pub view : {W : Type 0} → Async (State W) View
view (m, (v, w)) = (ok v, (m, (v, w)))

-- The actions of the tunnel store, on this state.
abbrev put_tunnels : {W : Type 0} → TunnelStore → State W → State W
put_tunnels ts (m, (v, w)) = (m, (record v { tunnels = ts }, w))

abbrev on_tunnels : {W A : Type 0} → Async (TunnelStore × State W) A → Async (State W) A
on_tunnels action (m, (v, w)) =
    let (r, (ts, s)) = action (v.tunnels, (m, (v, w))) in (r, put_tunnels ts s)

unfoldable pub toast : String → ToastKind → View → View
toast text kind v = record v { toasts = v.toasts ++ record { text = text; kind = kind } ∷ [] }

-- A failure that is reported again within five seconds is shown once.
unfoldable pub toast_failure : (now : ℕ) → String → View → View
unfolding toast
toast_failure now msg v =
    if msg == v.last_failure.0 && ltb (now - v.last_failure.1) 5000
    then v
    else toast msg warning (record v { last_failure = (msg, now) })

-- `rememberLastServer`; a write that localStorage refuses is ignored.
unfoldable pub remember_last_server : String → View → View
remember_last_server id v = record v {
  last_server_id = some id;
  stored_server_id = if v.storage_writable then some id else v.stored_server_id;
}
