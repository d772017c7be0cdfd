-- ===== src/Desktop/Managed/Actions.antt =====
-- The managed store's entry points as data, and sequences of them.
use pro_identity_access.Base.{String, List, [], ◌∷◌}
use pro_identity_access.Async.{Async, pure, ◌>>◌}
use pro_identity_access.Desktop.Types.{ServerInfo}
use pro_identity_access.Desktop.Managed
use pro_identity_access.Desktop.Managed.{State, ManagedApi}

-- Every entry point of the store, as data, to state what holds after any sequence of them.
pub data Action : Type 0 where
  load_settings load_servers logout clear_error : Action
  save_server_url : String → Action
  login login_with_push : String → String → String → Action
  connect_server : ServerInfo → String → Action
  disconnect_server : String → Action

module _ {W : Type 0} where
  unfoldable pub run : ManagedApi W → Action → Async (State W) (Unit {0})
  run api load_settings = Managed.load_settings api
  run api load_servers = Managed.load_servers api
  run api logout = Managed.logout api
  run api clear_error = Managed.clear_error api
  run api (save_server_url url) = Managed.save_server_url api url
  run api (login u p c) = Managed.login api u p c >> pure tt
  run api (login_with_push u p r) = Managed.login_with_push api u p r
  run api (connect_server server c) = Managed.connect_server api server c
  run api (disconnect_server id) = Managed.disconnect_server api id

  -- Each action meets its own answers of the service.
  unfoldable pub run_all : List (ManagedApi W × Action) → State W → State W
  run_all [] s = s
  run_all ((api, a) ∷ rest) s = run_all rest (run api a s).1
