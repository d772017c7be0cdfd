-- ===== src/Desktop/Tunnels.antt =====
-- client/frontend/src/stores/useTunnelStore.ts: the WireGuard tunnels, their counters and the
-- selection. The bridge's functions that an action awaits are fields of `TunnelApi`.
pub mod Selection
pub mod Updates
use pro_identity_access.Base.{
  String, Bool, true, false, not, ◌||◌, Option, none, some, List, [], ◌∷◌, ◌++◌, map, ◌==◌,
  if◌then◌else◌, Dict, insert, first, keep, truthy, is_some,
}
use pro_identity_access.Async.{
  Async, Thrown, js_error, string_of, message_of, catch, throw, pure, both, set, get, ◌>>=◌, ◌>>◌,
}
use pro_identity_access.Desktop.Types.{
  TunnelInfo, StatsInfo, TunnelStatus, disconnected, connecting, error,
}

pub record TunnelStore : Type 0 where
  pub tunnels : List TunnelInfo
  pub stats : Dict StatsInfo
  pub selected_id : Option String
  pub daemon_online : Bool
  pub loading : Bool
  pub error : Option String

abbrev pub State : Type 0 → Type 0
State W = TunnelStore × W

pub record TunnelApi (W : Type 0) : Type 0 where
  pub is_daemon_running : Async (State W) Bool
  pub list_tunnels : Async (State W) (List TunnelInfo)
  pub import_tunnel : (name content : String) → Async (State W) (Option TunnelInfo)
  pub delete_tunnel : (id : String) → Async (State W) (Unit {0})
  pub connect_tunnel : (id : String) → Async (State W) (Unit {0})
  pub disconnect_tunnel : (id : String) → Async (State W) (Unit {0})
  pub empty_response : String  -- tr('import.emptyResponse')

abbrev pub initial : TunnelStore
initial = record {
  tunnels = [];
  stats = [];
  selected_id = none;
  daemon_online = false;
  loading = false;
  error = none;
}

-- `!selectedId`: null and the empty text are falsy.
abbrev pub is_selected : Option String → Bool
is_selected none = false
is_selected (some id) = truthy id

-- `tunnels[0]?.id ?? null`
abbrev pub first_id : List TunnelInfo → Option String
first_id [] = none
first_id (t ∷ _) = some t.id

abbrev set_selected : Option String → TunnelStore → TunnelStore
set_selected id s = record s { selected_id = id }

-- The two `set` calls of `refresh`: what was read, and the selection of the first tunnel.
unfoldable pub refreshed : Bool → List TunnelInfo → TunnelStore → TunnelStore
refreshed online tunnels s = record s { daemon_online = online; tunnels = tunnels; loading = false }

unfoldable pub auto_select : List TunnelInfo → TunnelStore → TunnelStore
auto_select [] s = s
auto_select (t ∷ _) s =
    if is_selected s.selected_id then s else record s { selected_id = some t.id }

unfoldable pub added : TunnelInfo → TunnelStore → TunnelStore
added t s = record s { tunnels = s.tunnels ++ t ∷ []; selected_id = some t.id }

abbrev pub is_id : String → Option String → Bool
is_id id none = false
is_id id (some s) = s == id

unfoldable pub removed : String → TunnelStore → TunnelStore
removed id s =
    let rest = keep (λ t. not (t.id == id)) s.tunnels in
    record s {
      tunnels = rest;
      selected_id = if is_id id s.selected_id then first_id rest else s.selected_id;
    }

unfoldable pub at_tunnel : String → (TunnelInfo → TunnelInfo) → List TunnelInfo → List TunnelInfo
at_tunnel id f = map (λ t. if t.id == id then f t else t)

abbrev pub set_tunnels : (List TunnelInfo → List TunnelInfo) → TunnelStore → TunnelStore
set_tunnels f s = record s { tunnels = f s.tunnels }

unfoldable pub update_stats : StatsInfo → TunnelStore → TunnelStore
update_stats stats s = record s { stats = insert stats.tunnel_id stats s.stats }

unfoldable pub update_tunnel : TunnelInfo → TunnelStore → TunnelStore
update_tunnel info s = set_tunnels (at_tunnel info.id (λ _. info)) s

unfoldable pub clear_error : TunnelStore → TunnelStore
clear_error s = record s { error = none }

abbrev fail : Thrown → TunnelStore → TunnelStore
fail e s = record s { error = some (string_of e) }

-- `t && t.id`: a tunnel with an id.
abbrev has_id : Option TunnelInfo → Bool
has_id none = false
has_id (some t) = truthy t.id

module _ {W : Type 0} (api : TunnelApi W) where
  -- Neither call can reject, so that the `catch` around them has nothing to catch.
  unfoldable pub refresh : Async (State W) (Unit {0})
  refresh = do
    set (λ s. record s { loading = true; error = none })
    catch
        (do
          (online, tunnels) ←
              both false (catch api.is_daemon_running λ _. pure false)
                (catch api.list_tunnels λ _. pure [])
          set (refreshed online tunnels)
          set (auto_select tunnels))
        λ e. set (λ s. record s { loading = false; error = some (string_of e) })

  accept : Option TunnelInfo → Async (State W) (Unit {0})
  accept none = throw (js_error "Error" api.empty_response)
  accept (some t) =
      if truthy t.id then set (added t) else throw (js_error "Error" api.empty_response)

  unfoldable pub import : (name content : String) → Async (State W) (Unit {0})
  unfolding accept
  import name content = do
    set clear_error
    catch (do t ← api.import_tunnel name content; accept t)
        λ e. do
          set (λ s. record s { error = some (message_of e) })
          throw (js_error "Error" (message_of e))

  unfoldable pub delete : (id : String) → Async (State W) (Unit {0})
  delete id = do
    set clear_error
    catch (do api.delete_tunnel id; set (removed id)) (λ e. do set (fail e); throw e)

  -- The tunnel shows "connecting" at once; what it becomes is reported by the service later.
  unfoldable pub connect : (id : String) → Async (State W) (Unit {0})
  connect id = do
    set (set_tunnels (at_tunnel id (λ t. record t { status = connecting })))
    catch (api.connect_tunnel id) λ e. do
      set (λ s. record s {
        error = some (string_of e);
        tunnels =
            at_tunnel id (λ t. record t { status = error; error = some (string_of e) }) s.tunnels;
      })
      throw e

  unfoldable pub disconnect : (id : String) → Async (State W) (Unit {0})
  disconnect id =
      catch
        (do
          api.disconnect_tunnel id
          set (set_tunnels (at_tunnel id (λ t. record t { status = disconnected }))))
        λ e. do set (fail e); throw e
