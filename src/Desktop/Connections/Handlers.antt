-- ===== src/Desktop/Connections/Handlers.antt =====
-- client/frontend/src/components/ConnectionsList.tsx: what the buttons of the rows do. The state is
-- the list's own beside the rest; `connect_managed` is the parent's `onConnectManaged`, and what is
-- missing of the parent's functions is `none`.
pub mod Closing
use pro_identity_access.Base.{String, Option, none, some, List, [], ◌∷◌, ◌++◌, not, keep, ◌==◌}
use Prim.Native.String
use pro_identity_access.Async.{Async, Thrown, message_of, pure, catch, set, ◌>>=◌, ◌>>◌}
use pro_identity_access.Desktop.Types.{ServerInfo, TunnelInfo, connecting}
use pro_identity_access.Desktop.Tunnels.{TunnelStore}
use pro_identity_access.Desktop.Bridge.Bindings.{WgProfileView}
use pro_identity_access.Desktop.Connections.{Row, imported, managed_active, managed_available, key}

-- `busyKey`
pub record ListState : Type 0 where
  pub busy_key : Option String

abbrev pub State : Type 0 → Type 0
State S = ListState × S

pub record ListApi (S : Type 0) : Type 0 where
  pub connect : (id : String) → Async (State S) (Unit {0})  -- of the tunnel store
  pub disconnect : (id : String) → Async (State S) (Unit {0})
  pub connect_server : ServerInfo → Async (State S) (Unit {0})  -- of the managed store
  pub load_servers : Async (State S) (Unit {0})
  pub disconnect_managed : (tunnel_id : String) → Async (State S) (Unit {0})
  pub on_connected : Async (State S) (Unit {0})
  pub on_connect_intent : ServerInfo → Async (State S) (Unit {0})
  pub on_connect_managed : Option (ServerInfo → Async (State S) (Unit {0}))

abbrev pub busy : Option String → ListState → ListState
busy k l = record l { busy_key = k }

-- `try { m } finally { set(f) }`
abbrev finally :
    {S : Type 0} → Async (State S) (Unit {0}) → (ListState → ListState) → Async (State S) (Unit {0})
finally m f s = let (r, (l, w)) = m s in (r, (f l, w))

module _ {S : Type 0} (api : ListApi S) where
  abbrev connect_by :
      Option (ServerInfo → Async (State S) (Unit {0})) → ServerInfo → Async (State S) (Unit {0})
  connect_by none server = api.connect_server server
  connect_by (some by_parent) server = by_parent server

  unfoldable connect_row : Row → Async (State S) (Unit {0})
  connect_row (imported t) = api.connect t.id
  connect_row (managed_active t ss) = api.connect t.id
  connect_row (managed_available ss) = do
    api.on_connect_intent ss.server
    connect_by api.on_connect_managed ss.server

  unfoldable pub handle_connect : Row → Async (State S) (Unit {0})
  unfolding connect_row
  handle_connect row = do
    set (busy (some (key row)))
    finally (catch (do connect_row row; api.on_connected) (λ _. pure tt)) (busy none)

  unfoldable disconnect_row : Row → Async (State S) (Unit {0})
  disconnect_row (imported t) = api.disconnect t.id
  disconnect_row (managed_active t ss) = do api.disconnect_managed t.id; api.load_servers
  disconnect_row (managed_available ss) = pure tt

  abbrev handle_disconnect : Row → Async (State S) (Unit {0})
  unfolding disconnect_row
  handle_disconnect row = do set (busy (some (key row))); finally (disconnect_row row) (busy none)

-- An assigned profile shows as connecting at once: its tunnel goes to the end of the list, with the
-- addresses of the profile, which are `split`, trimmed and freed of empty texts.
abbrev placed : (split : Option String → List String) → WgProfileView → TunnelStore → TunnelStore
placed split p s = record s {
  tunnels =
      keep (λ t. not (t.id == p.id)) s.tunnels
      ++ record {
        id = p.id;
        name = p.name;
        status = connecting;
        addresses = split p.address;
        dns = [];
        mtu = 0;
        listen_port = 0;
        private_key = "";
        peers = [];
        error = none;
        is_managed = none;
      }
        ∷ [];
  selected_id = some p.id;
}
