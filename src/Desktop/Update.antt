-- ===== src/Desktop/Update.antt =====
-- client/frontend/src/stores/useUpdateStore.ts: offering client updates. Times are in milliseconds.
-- `localStorage` is a part of the state here, since "Later" is stored there.
pub mod Prompt
use pro_identity_access.Base.{
  ℕ, ◌+◌, String, Bool, true, false, not, ◌&&◌, ◌||◌, Option, none, some, ◌==◌, ltb, or_else,
  truthy, if◌then◌else◌,
}
use pro_identity_access.Async.{Async, Thrown, message_of, catch, throw, pure, set, get, ◌>>=◌, ◌>>◌}

pub data Phase : Type 0 where
  idle checking up_to_date available downloading installing failed : Phase

-- `UpdateState` of client/frontend/src/wailsbridge.ts
pub record UpdateState : Type 0 where
  pub state : Phase
  pub supported : Bool
  pub current_version : String
  pub latest_version : Option String
  pub mandatory : Option Bool
  pub notes : Option String
  pub progress : Option ℕ
  pub error : Option String

pub record Snooze : Type 0 where
  pub version : String
  pub until : ℕ

-- `localStorage`: `writable` is false where writing throws (private mode). What it holds is read
-- back as it was written.
pub record Storage : Type 0 where
  pub writable : Bool
  pub snooze : Option Snooze

pub record UpdateStore : Type 0 where
  pub status : Option UpdateState
  pub checking : Bool
  pub installing : Bool
  pub error : String
  pub dismissed : Bool
  pub storage : Storage

abbrev pub State : Type 0 → Type 0
State W = UpdateStore × W

pub record UpdateApi (W : Type 0) : Type 0 where
  pub check_for_update : Async (State W) UpdateState
  pub install_update : Async (State W) (Unit {0})
  pub update_failed : String  -- t('update.failed')

abbrev pub snooze_ms : ℕ
snooze_ms = 86400000

unfoldable pub initial : Storage → UpdateStore
initial storage = record {
  status = none;
  checking = false;
  installing = false;
  error = "";
  dismissed = false;
  storage = storage;
}

unfoldable write_snooze : Snooze → Storage → Storage
write_snooze s storage = if storage.writable then record storage { snooze = some s } else storage

-- `get().status?.latest_version`, if it is not empty
unfoldable pub offered : Option UpdateState → Option String
offered none = none
offered (some status) = elim status.latest_version [
  | none ↦ none
  | some v ↦ if truthy v then some v else none
]

-- The service is told too (`api.snoozeUpdate`), and a failure of that is ignored.
unfoldable pub later : (now : ℕ) → UpdateStore → UpdateStore
unfolding write_snooze offered
later now s = elim (offered s.status) [
  | none ↦ record s { dismissed = true }
  | some v ↦ record s {
    storage = write_snooze (record { version = v; until = now + snooze_ms }) s.storage;
    dismissed = true;
  }
]

abbrev is_busy : Phase → Bool
is_busy downloading = true
is_busy installing = true
is_busy _ = false

abbrev is_failed : Phase → Bool
is_failed failed = true
is_failed _ = false

abbrev pub is_available : Phase → Bool
is_available available = true
is_available _ = false

unfoldable pub apply_event : (update_failed : String) → UpdateState → UpdateStore → UpdateStore
apply_event update_failed status s = record s {
  status = some status;
  installing = is_busy status.state;
  error = if is_failed status.state then or_else status.error update_failed else "";
}

-- `a === b` of a text and a text that may be undefined
abbrev same_version : String → Option String → Bool
same_version v none = false
same_version v (some w) = v == w

unfoldable is_snoozed : (now : ℕ) → Option Snooze → UpdateState → Bool
is_snoozed now none status = false
is_snoozed now (some s) status = same_version s.version status.latest_version && ltb now s.until

unfoldable should_prompt_for : (now : ℕ) → UpdateStore → UpdateState → Bool
unfolding is_snoozed
should_prompt_for now s status =
    if s.installing || is_busy status.state
    then true
    else if is_failed status.state
    then not s.dismissed
    else if not (is_available status.state)
    then false
    else if or_else status.mandatory false
    then true
    else not (is_snoozed now s.storage.snooze status)

unfoldable pub should_prompt : (now : ℕ) → UpdateStore → Bool
unfolding should_prompt_for
should_prompt now s = elim s.status [ none ↦ false | some status ↦ should_prompt_for now s status ]

module _ {W : Type 0} (api : UpdateApi W) where
  -- A check that is already running is not started again.
  unfoldable pub check : (silent : Bool) → Async (State W) (Unit {0})
  check silent = do
    s ← get
    if s.checking then pure tt else (do
      set (λ s. record s { checking = true; error = if silent then s.error else "" })
      catch
          (do
            status ← api.check_for_update
            set (λ s. record s { status = some status; dismissed = false }))
          λ e. if silent then pure tt else set (λ s. record s { error = message_of e })
      set (λ s. record s { checking = false }))

  unfoldable pub install : Async (State W) (Unit {0})
  install = do
    set (λ s. record s { installing = true; error = "" })
    catch api.install_update λ e. set (λ s. record s { installing = false; error = message_of e })
