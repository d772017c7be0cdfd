-- ===== src/Desktop/Wizard/Steps.antt =====
-- client/frontend/src/components/SetupWizard.tsx: what the other steps of the wizard do with the
-- setup store, and the page that uninstalls the application.
use pro_identity_access.Base.{String, Bool, true, ◌≡◌, refl, none, if◌then◌else◌, truthy}
use pro_identity_access.Async.{Async, Thrown, string_of, threw, pure, catch, set, get, ◌>>=◌, ◌>>◌}
use pro_identity_access.Desktop.Setup.{
  SetupStore, SetupApi, State, persist_server_url, register_device, ensure_device_name, clear_error,
}

module _ {W : Type 0} (api : SetupApi W) where
  -- `onNext` of the step that asks for the server.
  unfoldable next_server : Async (State W) (Unit {0})
  next_server = do persist_server_url api; set (λ s. record s { step = "register" })

  unfoldable submit_server : Async (State W) (Unit {0})
  submit_server = do
    s ← get
    if truthy (api.trim s.server_url) then (do set clear_error; next_server) else pure tt

  abbrev submit_register : Async (State W) (Unit {0})
  submit_register = do set clear_error; catch (register_device api) (λ _. pure tt)

  -- The effect of the step that registers the device.
  abbrev load_default_name : Async (State W) (Unit {0})
  load_default_name = do
    s ← get
    if truthy (api.trim s.device_name)
        then pure tt
        else catch (ensure_device_name api) (λ _. pure tt)

pub data Progress : Type 0 where
  confirm running failed : Progress

pub record Uninstall : Type 0 where
  pub keep_data : Bool
  pub progress : Progress
  pub error : String

module _ {W : Type 0} (uninstall_app : (keep_data : Bool) → Async (Uninstall × W) (Unit {0})) where
  abbrev handle_uninstall : Async (Uninstall × W) (Unit {0})
  handle_uninstall = do
    u ← get
    set (λ u. record u { progress = running })
    catch (uninstall_app u.keep_data)
        λ e. set (λ u. record u { progress = failed; error = string_of e })

-- A server that the service refuses to save leaves the wizard where it is, without a word: the step
-- and the error stay as the submission of the form put them, and the form does not catch what was
-- thrown.
submit_server_refused :
    {W : Type 0} (api : SetupApi W) (s : SetupStore) (w : W) (e : Thrown) (w' : W)
    → truthy (api.trim s.server_url) ≡ true
    → api.save_server_url s.server_url (clear_error s, w) ≡ (threw e, (clear_error s, w'))
    → submit_server api (s, w) ≡ (threw e, (record s { error = none }, w'))
unfolding submit_server next_server persist_server_url get set clear_error ◌>>=◌
submit_server_refused api s w e w' t r = rw (t, t, r) refl
