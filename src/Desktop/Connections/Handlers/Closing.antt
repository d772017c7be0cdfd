-- ===== src/Desktop/Connections/Handlers/Closing.antt =====
-- The list of connections inside the main view (client/frontend/src/App.tsx).
use pro_identity_access.Base.{◌≡◌, refl, none, some}
use pro_identity_access.Async.{Async, Outcome, ok, threw, catch, settle, pure, set, ◌>>=◌}
use pro_identity_access.Async.Returns.{Returns}
use pro_identity_access.Desktop.Types.{ServerInfo, ServerStatus}
use pro_identity_access.Desktop.Main.State
use pro_identity_access.Desktop.Main.Actions.{handle_connect_intent}
use pro_identity_access.Desktop.Main.Connect.{ConnectApi, connect_managed}
use pro_identity_access.Desktop.Main.Connect.Quiet.{connect_managed-Returns}
use pro_identity_access.Desktop.Connections.{managed_available, key}
use pro_identity_access.Desktop.Connections.Handlers.{
  ListState, ListApi, State, busy, handle_connect,
}

-- An action of the main view, beside the state of the list.
abbrev lift : {S : Type 0} → Async S (Unit {0}) → Async (State S) (Unit {0})
lift m (l, s) = let (r, s') = m s in (r, (l, s'))

-- The functions that the main view hands to the list.
abbrev pub in_view : {W : Type 0} → ConnectApi W → ListApi (State.State W) → ListApi (State.State W)
in_view api list = record list {
  on_connect_intent = λ srv. lift (State.change (handle_connect_intent srv));
  on_connect_managed = some (λ srv. lift (connect_managed api srv));
}

abbrev pub pending : {W : Type 0} → ServerInfo → State.State W → State.State W
pending srv (m, (v, w)) = (m, (handle_connect_intent srv v, w))

abbrev pub at_rest : {S : Type 0} → Outcome (Unit {0}) × State S → Outcome (Unit {0}) × State S
at_rest (r, (l, s)) = (ok tt, (busy none l, s))

-- What `try`, `catch` and `finally` leave of an ending.
settled :
    {S : Type 0} (z : Outcome (Unit {0}) × State S)
    → (let (r, (l, w)) = settle z.0 (λ _. pure tt) z.1 in (r, (busy none l, w))) ≡ at_rest z
unfolding pure
settled (ok u, (l, w)) = refl
settled (threw e, (l, w)) = refl

-- In the main view, the list reports a connection to its parent however the attempt to connect a
-- managed server ended, unless reading the clock throws: it is over when the attempt is, also if the
-- service refused it or asked for a second factor.
pub handle_connect-in_view :
    {W : Type 0} (api : ConnectApi W) (list : ListApi (State.State W)) (clock : Returns api.now)
    (ss : ServerStatus) (l : ListState) (s : State.State W)
    → handle_connect (in_view api list) (managed_available ss) (l, s)
      ≡ at_rest (
          list.on_connected (
            busy (some (key (managed_available ss))) l,
            (connect_managed api ss.server (pending ss.server s)).1,
          ))
unfolding handle_connect catch set ◌>>=◌
handle_connect-in_view api list clock ss l s =
    let (_, ends) = (connect_managed-Returns api clock ss.server).at (pending ss.server s) in
    rw ends (
      settled (
        list.on_connected (
          busy (some (key (managed_available ss))) l,
          (connect_managed api ss.server (pending ss.server s)).1,
        )))
