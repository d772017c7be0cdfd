-- ===== src/Desktop/Setup.antt =====
-- client/frontend/src/stores/useSetupStore.ts: the first-run wizard.
pub mod Steps
use pro_identity_access.Base.{
  String, Bool, true, false, not, Option, none, some, ◌==◌, if◌then◌else◌, or_else, truthy,
}
use pro_identity_access.Async.{Async, Thrown, string_of, catch, throw, pure, set, get, ◌>>=◌, ◌>>◌}
use pro_identity_access.Desktop.Types.{ManagedSettings}

pub data AppMode : Type 0 where
  standalone managed : AppMode

-- `step` is text: what the service answers is stored as it is (`step as SetupStep`).
pub record SetupStore : Type 0 where
  pub setup_done : Bool
  pub step : String
  pub mode : Option AppMode
  pub server_url : String
  pub device_name : String
  pub loading : Bool
  pub error : Option String

abbrev pub State : Type 0 → Type 0
State W = SetupStore × W

pub record SetupApi (W : Type 0) : Type 0 where
  pub get_setup_step : Async (State W) String
  pub get_settings : Async (State W) ManagedSettings
  pub set_mode : AppMode → Async (State W) (Unit {0})
  pub save_server_url : String → Async (State W) (Unit {0})
  pub default_device_name : Async (State W) String
  pub register_device : (server_url device_name : String) → Async (State W) (Unit {0})
  pub complete_setup : Async (State W) (Unit {0})
  pub trim : String → String  -- JavaScript's `trim`

abbrev pub initial : SetupStore
initial = record {
  setup_done = false;
  step = "mode";
  mode = none;
  server_url = "";
  device_name = "";
  loading = false;
  error = none;
}

abbrev pub fallback_name : String
fallback_name = "ProIdentity Desktop"

abbrev pub start_loading : SetupStore → SetupStore
start_loading s = record s { loading = true; error = none }

abbrev pub fail_loading : Thrown → SetupStore → SetupStore
fail_loading e s = record s { loading = false; error = some (string_of e) }

unfoldable pub restore : String → String → SetupStore → SetupStore
restore step server_url s = record s {
  setup_done = false;
  step = step;
  mode = if step == "mode" then none else some managed;
  server_url = server_url;
}

unfoldable pub save_server_url : String → SetupStore → SetupStore
save_server_url url s = record s { server_url = url }

unfoldable pub set_device_name : String → SetupStore → SetupStore
set_device_name name s = record s { device_name = name }

unfoldable pub clear_error : SetupStore → SetupStore
clear_error s = record s { error = none }

module _ {W : Type 0} (api : SetupApi W) where
  -- An empty answer leaves the name empty; a rejected one falls back to a fixed name.
  unfoldable pub ensure_device_name : Async (State W) (Unit {0})
  ensure_device_name = do
    s ← get
    if truthy (api.trim s.device_name)
        then pure tt
        else catch
            (do
              name ← api.default_device_name
              if truthy (api.trim name) then set (set_device_name name) else pure tt)
            λ _. set (set_device_name fallback_name)

  -- The server URL is read back only past the first step.
  restored_url : String → Async (State W) String
  restored_url step =
      if step == "mode" then pure "" else (do settings ← api.get_settings; pure settings.server_url)

  check_step : String → Async (State W) (Unit {0})
  unfolding restored_url
  check_step step =
      if step == "done" then set (λ s. record s { setup_done = true; step = "done" }) else (do
        url ← restored_url step
        set (restore step url)
        if step == "register" then ensure_device_name else pure tt)

  unfoldable pub check_setup : Async (State W) (Unit {0})
  unfolding check_step ensure_device_name
  check_setup =
      catch (do step ← api.get_setup_step; check_step step)
        λ _. set (λ s. record s { setup_done = false })

  -- `null` is treated like "managed", as the source's `else` does.
  enter : Option AppMode → Async (State W) (Unit {0})
  enter (some standalone) = do
    api.set_mode standalone
    set (λ s. record s { loading = false; setup_done = true })
  enter _ = do api.set_mode managed; set (λ s. record s { loading = false; step = "server" })

  unfoldable pub choose_mode : Option AppMode → Async (State W) (Unit {0})
  unfolding enter
  choose_mode mode = do
    set (λ s. record s { loading = true; error = none; mode = mode })
    catch (enter mode) (λ e. do set (fail_loading e); throw e)

  unfoldable pub persist_server_url : Async (State W) (Unit {0})
  unfolding ensure_device_name
  persist_server_url = do
    s ← get
    (if truthy (api.trim s.server_url) then api.save_server_url s.server_url else pure tt)
    ensure_device_name

  unfoldable pub register_device : Async (State W) (Unit {0})
  unfolding ensure_device_name
  register_device = do
    ensure_device_name
    s ← get
    set start_loading
    catch
        (do
          api.save_server_url s.server_url
          api.register_device s.server_url s.device_name
          set (λ s. record s { loading = false; step = "login" }))
        λ e. do set (fail_loading e); throw e

  abbrev complete_setup : Async (State W) (Unit {0})
  complete_setup = do
    set start_loading
    catch (do api.complete_setup; set (λ s. record s { loading = false; setup_done = true }))
        λ e. do set (fail_loading e); throw e
