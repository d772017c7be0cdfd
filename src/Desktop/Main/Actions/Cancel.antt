-- ===== src/Desktop/Main/Actions/Cancel.antt =====
-- What closing the sheet does to the loop that waits for an approval.
use pro_identity_access.Base.{
  ℕ, suc, ◌<◌, String, true, false, ◌≡◌, refl, ap, ◌∙◌, none, some, length, Bool-cases, ◌==◌, inl,
  inr,
}
use pro_identity_access.Async.{ok}
use pro_identity_access.Desktop.Types.{ServerInfo}
use pro_identity_access.Desktop.Managed.{ManagedStore}
use pro_identity_access.Desktop.Main.State.{State, View, Run}
use pro_identity_access.Desktop.Main.Connect.{
  ConnectApi, flag, waits_for, run_of, get_run, cancel_run, is_cancelled, is_waiting, wait,
}
use pro_identity_access.Desktop.Main.Connect.Rounds.{wait-cancelled}
use pro_identity_access.Desktop.Main.Connect.Runs.{get_run-cancel_at}
use pro_identity_access.Desktop.Main.Actions.{cancel_sheet}

waits_for-cancelled :
    (server_id : String) (r : Run) → r.cancelled ≡ true → waits_for server_id (some r) ≡ false
waits_for-cancelled server_id r h = elim (Bool-cases (r.server_id == server_id)) [
  | inl k ↦ rw (k, h) refl
  | inr k ↦ rw k refl
]

-- A cancel while a run waits: the sheet is closed and nothing is pending, the loop of that run ends
-- at its next look, with no further call and no change, and no server counts as waiting, so that
-- each can be connected again.
pub cancel_sheet_lem :
    {W : Type 0} (api : ConnectApi W) (srv : ServerInfo) (request_id : String) (attempts i : ℕ)
    (m : ManagedStore) (v : View) (w : W)
    → v.current_run ≡ some i
    → i < length v.runs
    → let s : State W = (m, (cancel_sheet v, w)) in
      (wait api srv i request_id (suc attempts) s ≡ (ok tt, s))
      × ((server_id : String) → is_waiting server_id (cancel_sheet v) ≡ false)
      × ((cancel_sheet v).totp_for_server ≡ none)
      × ((cancel_sheet v).pending_server_id ≡ none)
unfolding cancel_sheet is_cancelled is_waiting
cancel_sheet_lem api srv request_id attempts i m v w current there =
    let (r, found, stopped) = get_run-cancel_at i v.runs there in
    let same : get_run i (cancel_run v.current_run v.runs) ≡ some r =
      ap (λ o. get_run i (cancel_run o v.runs)) current ∙ found in
    (
      wait-cancelled api srv i request_id attempts (m, (cancel_sheet v, w))
          (ap flag same ∙ stopped),
      λ server_id.
          ap (λ o. waits_for server_id (run_of o (cancel_run o v.runs))) current
          ∙ ap (waits_for server_id) found
          ∙ waits_for-cancelled server_id r stopped,
      refl,
      refl,
    )
