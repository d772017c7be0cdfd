-- ===== src/Tests/Connections.antt =====
-- The list of connections and the wizard at small inputs: two tunnels, one server, and a service that
-- refuses to connect.
use pro_identity_access.Base.{
  ◌+◌, ◌≤◌, String, true, false, not, ◌&&◌, ◌≡◌, ◌⊎◌, refl, none, some, List, [], ◌∷◌, ◌++◌, keep,
  has, length,
}
use pro_identity_access.Async.{Async, ok, threw, plain}
use pro_identity_access.Desktop.Types.{TunnelInfo, ServerStatus}
use pro_identity_access.Desktop.Managed.{LoginReply}
use pro_identity_access.Desktop.Main.State
use pro_identity_access.Desktop.Main.Connect.{ConnectApi, connect_managed}
use pro_identity_access.Desktop.Connections.{
  build_rows, resolve, is_managed, is_profile, key, managed_available,
}
use pro_identity_access.Desktop.Connections.Rows.{
  row_servers, on_their_own, claimed, ids, build_rows_lem,
}
use pro_identity_access.Desktop.Connections.Resolve.{resolve_lem}
use pro_identity_access.Desktop.Connections.Handlers.{ListState, ListApi, busy, handle_connect}
use pro_identity_access.Desktop.Connections.Handlers.Closing.{
  in_view, pending, at_rest, handle_connect-in_view,
}
use pro_identity_access.Desktop.Wizard.{
  Wizard, Event, initial, run, step, replied, polled, changed_account, retried, ticked, poll_failed,
  typed_username,
}
use pro_identity_access.Desktop.Wizard.Once.{sign_ins-run}
use pro_identity_access.Desktop.Wizard.Stale.{sign_ins-changed_account, polled_stale, retried_late}
use pro_identity_access.Desktop.Wizard.Polling.{IsPolled, run-IsPolled}
use pro_identity_access.Tests.Main.{paris, home, api, start}

abbrev up : TunnelInfo
up = record home { id = "t1"; name = "Office"; is_managed = some true }

abbrev served : ServerStatus
served = record {
  server = paris;
  connected = true;
  tunnel_id = none;
  connecting = false;
  error = none;
}

-- The tunnel has another name: it is shown because no other is left.
resolve_lem_example :
    (has "t1" (ids (home ∷ up ∷ [])) ≡ true)
    × ((served.tunnel_id ≡ some "t1") ⊎ ((served.connected ≡ true) × (has "t1" [] ≡ false)))
unfolding resolve
resolve_lem_example = resolve_lem (λ s. s) served (home ∷ up ∷ []) [] up refl

build_rows_lem_example :
    let rows = build_rows (λ s. s) (home ∷ up ∷ []) (served ∷ []) in
    (row_servers rows ≡ served ∷ [])
    × (on_their_own rows
        ≡ keep
            (λ t. not (has t.id (ids (claimed rows))) && not (is_managed t))
            (keep (λ t. not (is_profile t)) (home ∷ up ∷ [])))
build_rows_lem_example = build_rows_lem (λ s. s) (home ∷ up ∷ []) (served ∷ [])

abbrev refusing : ConnectApi (Unit {0})
refusing = record api { connect_server = λ _ _ s. (threw (plain "busy"), s) }

abbrev nothing : {S A : Type 0} → A → Async S A
nothing a s = (ok a, s)

abbrev list : ListApi (State.State (Unit {0}))
list = record {
  connect = λ _. nothing tt;
  disconnect = λ _. nothing tt;
  connect_server = λ _. nothing tt;
  load_servers = nothing tt;
  disconnect_managed = λ _. nothing tt;
  on_connected = nothing tt;
  on_connect_intent = λ _. nothing tt;
  on_connect_managed = none;
}

abbrev idle : ListState
idle = record { busy_key = none }

abbrev off : ServerStatus
off = record served { connected = false }

handle_connect-in_view_example :
    handle_connect (in_view refusing list) (managed_available off) (idle, start)
    ≡ at_rest (
        list.on_connected (
          busy (some (key (managed_available off))) idle,
          (connect_managed refusing paris (pending paris start)).1,
        ))
handle_connect-in_view_example =
    handle_connect-in_view refusing list (record { at = λ s. (0, refl) }) off idle start

abbrev asks : String → LoginReply
asks id = record { require_totp = true; push_auth_enabled = true; push_request_id = id }

-- A request that is asked about twice, and approved in both answers.
abbrev waiting : Wizard
waiting = run (typed_username "ann" ∷ replied false (asks "r1") ∷ []) initial

abbrev answers : List Event
answers = ticked ∷ polled 0 "approved" ∷ polled 0 "approved" ∷ []

sign_ins-run_example : length (run answers waiting).sign_ins ≤ length waiting.sign_ins + 1
unfolding run
sign_ins-run_example = sign_ins-run answers waiting refl (tt, (tt, (tt, tt)))

sign_ins-changed_account_example :
    (run (changed_account ∷ answers) waiting).sign_ins ≡ waiting.sign_ins
sign_ins-changed_account_example = sign_ins-changed_account answers waiting (tt, (tt, (tt, tt)))

-- Another account's request is pending, and the poll about the first has no answer yet.
abbrev other : Wizard
other = run (changed_account ∷ typed_username "bob" ∷ replied false (asks "r2") ∷ []) waiting

polled_stale_example :
    ((step (polled 0 "approved") other).sign_ins ≡ other.sign_ins ++ "r2" ∷ [])
    × ((step (polled 0 "approved") other).timer ≡ none)
unfolding run
polled_stale_example = polled_stale 0 other refl refl refl refl

retried_late_example :
    (run (changed_account ∷ retried (asks "r2") ∷ polled 0 "approved" ∷ []) waiting).sign_ins
    ≡ waiting.sign_ins ++ "r2" ∷ []
retried_late_example = retried_late (asks "r2") 0 waiting refl

run-IsPolled_example : IsPolled (run (ticked ∷ poll_failed 0 ∷ []) initial)
run-IsPolled_example = run-IsPolled (ticked ∷ poll_failed 0 ∷ []) initial tt
