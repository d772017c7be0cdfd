-- ===== src/Desktop/Main/Connect.antt =====
-- client/frontend/src/App.tsx: `connectManaged`, which connects a managed server and, where the
-- server wants it, waits for the approval of a push request. `withConnectTimeout` races a call with
-- a timer, both the browser's: the calls of `ConnectApi` are the raced ones. What the user does while
-- the loop waits is part of what `delay` and `poll_push_auth` do to the state.
pub mod Rounds
pub mod Waiting
pub mod Approved
pub mod Runs
pub mod Quiet
use Prim.Native.String
use pro_identity_access.Base.{
  ℕ, zero, suc, ◌+◌, String, Bool, true, false, not, ◌&&◌, ◌||◌, Option, none, some, List, [], ◌∷◌,
  ◌++◌, length, nat_eq, or_else, ◌==◌, if◌then◌else◌,
}
use pro_identity_access.Async.{Async, Thrown, message_of, catch, pure, set, ◌>>=◌, ◌>>◌}
use pro_identity_access.Desktop.Types.{ServerInfo, ServerStatus, TunnelInfo}
use pro_identity_access.Desktop.Managed.{ManagedStore, at_server, set_servers}
use pro_identity_access.Desktop.Main.State.{
  View, Run, State, change, view, toast_failure, remember_last_server,
}

pub record ConnectApi (W : Type 0) : Type 0 where
  pub connect_server : ServerInfo → (totp_code : String) → Async (State W) (Unit {0})
  pub connect_server_push : (id name request_id : String) → Async (State W) TunnelInfo
  pub create_push_auth : (context : String) → Async (State W) String  -- the id of the request
  pub poll_push_auth : (request_id : String) → Async (State W) String
  pub load_servers : Async (State W) (Unit {0})
  pub delay : Async (State W) (Unit {0})  -- two seconds
  pub now : Async (State W) ℕ
  pub includes : (text part : String) → Bool
  pub from_part : (text part : String) → String  -- `text.slice(text.indexOf(part))`

-- The runs are objects: one is named by its place.
abbrev pub get_run : ℕ → List Run → Option Run
get_run i [] = none
get_run zero (r ∷ rs) = some r
get_run (suc i) (r ∷ rs) = get_run i rs

abbrev pub cancel_at : ℕ → List Run → List Run
cancel_at i [] = []
cancel_at zero (r ∷ rs) = record r { cancelled = true } ∷ rs
cancel_at (suc i) (r ∷ rs) = r ∷ cancel_at i rs

abbrev pub flag : Option Run → Bool
flag none = false
flag (some r) = r.cancelled

-- `run.cancelled`
unfoldable pub is_cancelled : ℕ → View → Bool
is_cancelled i v = flag (get_run i v.runs)

abbrev pub cancel_run : Option ℕ → List Run → List Run
cancel_run none rs = rs
cancel_run (some i) rs = cancel_at i rs

-- `if (pushConnectRef.current) pushConnectRef.current.cancelled = true`
unfoldable pub cancel_current : View → View
cancel_current v = record v { runs = cancel_run v.current_run v.runs }

-- `const run = { serverId, cancelled: false }; pushConnectRef.current = run`
unfoldable pub start_run : String → View → View
start_run server_id v = record v {
  runs = v.runs ++ record { server_id = server_id; cancelled = false } ∷ [];
  current_run = some (length v.runs);
}

abbrev is_run : ℕ → Option ℕ → Bool
is_run i none = false
is_run i (some j) = nat_eq i j

-- `if (pushConnectRef.current === run) pushConnectRef.current = null`
unfoldable pub leave_run : ℕ → View → View
leave_run i v = record v { current_run = if is_run i v.current_run then none else v.current_run }

abbrev pub waits_for : String → Option Run → Bool
waits_for server_id none = false
waits_for server_id (some r) = r.server_id == server_id && not r.cancelled

abbrev pub run_of : Option ℕ → List Run → Option Run
run_of none rs = none
run_of (some i) rs = get_run i rs

-- A run for this server is waiting already.
unfoldable pub is_waiting : String → View → Bool
is_waiting server_id v = waits_for server_id (run_of v.current_run v.runs)

-- The verification sheet in push mode.
unfoldable pub open_sheet : ServerInfo → View → View
open_sheet srv v = record v {
  push_approving_server = none;
  push_auth_available = true;
  push_driven = true;
  push_status = "pending";
  totp_for_server = some srv;
  pending_server_id = some srv.id;
}

abbrev pub set_status : String → View → View
set_status status v = record v { push_status = status }

abbrev pub approve : TunnelInfo → ServerStatus → ServerStatus
approve tunnel ss = record ss {
  connected = true;
  connecting = false;
  tunnel_id = some tunnel.id;
  error = none;
}

unfoldable pub close_sheet : String → View → View
unfolding remember_last_server
close_sheet server_id v = record (remember_last_server server_id v) {
  totp_for_server = none;
  push_driven = false;
  push_auth_available = false;
}

module _ {W : Type 0} (api : ConnectApi W) where
  -- The request was approved.
  unfoldable pub finish : ServerInfo → (request_id : String) → Async (State W) (Unit {0})
  finish srv request_id = do
    tunnel ← api.connect_server_push srv.id srv.name request_id
    set (set_servers (at_server srv.id (approve tunnel)))
    change (close_sheet srv.id)
    api.load_servers

  -- What an answer that was polled means, with what to do if the request is still open.
  unfoldable pub react :
      ServerInfo
      → (request_id status : String) → (more : Async (State W) (Unit {0}))
      → Async (State W) (Unit {0})
  unfolding finish
  react srv request_id status more = do
    change (set_status status)
    if status == "approved"
        then finish srv request_id
        else if status == "denied" || status == "expired"
        then pure tt
        else more

  -- The attempts that are left. The state is read again after each wait.
  unfoldable pub wait :
      ServerInfo → (run : ℕ) → (request_id : String) → (attempts : ℕ) → Async (State W) (Unit {0})
  unfolding react is_cancelled
  wait srv run request_id zero = change (set_status "expired")
  wait srv run request_id (suc attempts) = do
    v ← view
    if is_cancelled run v then pure tt else (do
      api.delay
      v ← view
      if is_cancelled run v then pure tt else (do
        status ← api.poll_push_auth request_id
        v ← view
        if is_cancelled run v
            then pure tt
            else react srv request_id status (wait srv run request_id attempts)))

  -- The run `run`, from the creation of its request on.
  unfoldable pub push_connect : ServerInfo → (run : ℕ) → Async (State W) (Unit {0})
  unfolding wait is_cancelled leave_run
  push_connect srv run = do
    catch
        (do
          request_id ← api.create_push_auth (String.◌++◌ "Connect to " srv.name)
          wait srv run request_id 45)
        λ _. do v ← view; if is_cancelled run v then pure tt else change (set_status "expired")
    change (leave_run run)

  unfoldable ask_code : ServerInfo → Async (State W) (Unit {0})
  ask_code srv = change (λ v. record v {
    pending_server_id = none;
    push_approving_server = none;
    push_driven = false;
    push_auth_available = false;
    totp_for_server = some srv;
  })

  unfoldable pub give_up : (msg : String) → Async (State W) (Unit {0})
  give_up msg = do
    change (λ v. record v { pending_server_id = none; push_approving_server = none })
    if api.includes msg "Can't connect:"
        then (do now ← api.now; change (toast_failure now (api.from_part msg "Can't connect:")))
        else pure tt

  unfoldable pub start_push : ServerInfo → Async (State W) (Unit {0})
  unfolding cancel_current start_run open_sheet push_connect
  start_push srv = do
    v ← view
    change (λ v. open_sheet srv (start_run srv.id (cancel_current v)))
    push_connect srv (length v.runs)

  -- What a refused connection asks for.
  unfoldable pub refused : ServerInfo → Thrown → Async (State W) (Unit {0})
  unfolding start_push ask_code give_up
  refused srv e =
      if api.includes (message_of e) "require_push_auth"
      then start_push srv
      else if api.includes (message_of e) "require_totp" || api.includes (message_of e) "totp"
      then ask_code srv
      else give_up (message_of e)

  unfoldable pub connect_managed : ServerInfo → Async (State W) (Unit {0})
  unfolding is_waiting refused
  connect_managed srv = do
    v ← view
    if is_waiting srv.id v then pure tt else (do
      change (λ v. record v { pending_server_id = some srv.id })
      catch (do api.connect_server srv ""; change (remember_last_server srv.id)) (refused srv))
