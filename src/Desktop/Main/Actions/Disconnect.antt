-- ===== src/Desktop/Main/Actions/Disconnect.antt =====
-- What a disconnection comes to.
use pro_identity_access.Base.{String, false, ◌≡◌, refl, none, some, inl, inr}
use pro_identity_access.Async.{ok, threw, Outcome, message_of, Outcome-cases, catch, ◌>>=◌}
use pro_identity_access.Desktop.Types.{TunnelInfo}
use pro_identity_access.Desktop.Main.State.{State, toast, warning}
use pro_identity_access.Desktop.Main.Focus.{is_synth}
use pro_identity_access.Desktop.Main.Actions.{ActionsApi, disconnect_live, handle_disconnect}

abbrev with_toast : {W : Type 0} → String → State W → State W
with_toast text (m, (v, w)) = (m, (toast text warning v, w))

abbrev not_pending : {W : Type 0} → State W → State W
not_pending (m, (v, w)) = (m, (record v { pending_server_id = none }, w))

abbrev report : {W : Type 0} → Outcome (Unit {0}) → State W → State W
report (ok _) s = s
report (threw e) s = with_toast (message_of e) s

-- A disconnection of the connection in focus never throws. Nothing is pending when its calls begin.
-- What one of them throws becomes a warning on the screen, after which nothing else is changed; if
-- none throws, the calls alone have changed the state.
handle_disconnect_lem :
    {W : Type 0} (api : ActionsApi W) (t : TunnelInfo) (s : State W)
    → is_synth (some t) ≡ false
    → let (r, u) = disconnect_live api t.id (not_pending s) in
      handle_disconnect api (some t) s ≡ (ok tt, report r u)
unfolding handle_disconnect catch ◌>>=◌
handle_disconnect_lem api t s h =
    elim (Outcome-cases (disconnect_live api t.id (not_pending s)).0) [
      | inl (_, k) ↦ rw (h, k) refl
      | inr (e, k) ↦ rw (h, k) refl
    ]
