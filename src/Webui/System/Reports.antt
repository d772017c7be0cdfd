-- ===== src/Webui/System/Reports.antt =====
-- server/webui/src/pages/System.tsx: the tabs of the denials and of the audit log, two tables that
-- show a page of 50 rows, and the tab of the health checks. A request goes out whenever the offset or
-- a filter changes; an answer is shown when it arrives, whatever was asked since.
pub mod Paging
pub mod Refresh
use pro_identity_access.Base.{
  ℕ, zero, suc, ◌+◌, ◌-◌, ◌*◌, ◌/◌, min, max, String, Bool, true, false, not, Option, none, some,
  List, [], ◌∷◌, ◌++◌, or_else, truthy, ltb, leb, nat_eq, if◌then◌else◌, Dict,
}
use pro_identity_access.Webui.Types.{Diagnostic}
use pro_identity_access.Webui.Rows.{DenialRow, AuditRow}
use pro_identity_access.Webui.Client.{Param, word, count, decimal, path}

abbrev pub limit : ℕ
limit = 50

-- What was asked for.
pub record Asked (F : Type 0) : Type 0 where
  pub offset : ℕ
  pub filters : F

pub record Table (R F : Type 0) : Type 0 where
  pub rows : List R
  pub total : ℕ
  pub offset : ℕ
  pub filters : F
  pub loading : Bool
  pub pending : List (Asked F)  -- the requests without an answer yet

pub record Answer (R : Type 0) : Type 0 where
  pub items : Option (List R)
  pub total : Option ℕ

abbrev page : (offset : ℕ) → ℕ
page offset = offset / limit + 1

abbrev total_pages : (total : ℕ) → ℕ
total_pages total = max 1 ((total + (limit - 1)) / limit)

-- Whether the line with "Prev" and "Next" is there.
unfoldable pub is_paged : (total : ℕ) → Bool
is_paged total = ltb limit total

abbrev pub remove_at {ℓ} : {A : Type ℓ} → ℕ → List A → List A
remove_at i [] = []
remove_at zero (x ∷ xs) = xs
remove_at (suc i) (x ∷ xs) = x ∷ remove_at i xs

pub data Event (R F : Type 0) : Type 0 where
  filter : F → Event R F
  prev next : Event R F
  refresh : Event R F
  ticked : Event R F  -- 15 seconds went by
  answered : ℕ → Answer R → Event R F  -- the pending request with this number
  failed : ℕ → Event R F

module _ {R F : Type 0} where
  -- `load`
  unfoldable pub ask : Table R F → Table R F
  ask t = record t {
    loading = true;
    pending = t.pending ++ record { offset = t.offset; filters = t.filters } ∷ [];
  }

  unfoldable pub receive : ℕ → Answer R → Table R F → Table R F
  receive i d t = record t {
    rows = or_else d.items [];
    total = or_else d.total 0;
    loading = false;
    pending = remove_at i t.pending;
  }

  abbrev pub move : ℕ → Table R F → Table R F
  move offset t = ask (record t { offset = offset })

  unfoldable pub to_prev : Table R F → Table R F
  unfolding is_paged ask
  to_prev t =
      if is_paged t.total then if nat_eq t.offset 0 then t else move (t.offset - limit) t else t

  unfoldable pub to_next : Table R F → Table R F
  unfolding is_paged ask
  to_next t =
      if is_paged t.total
      then if leb t.total (t.offset + limit) then t else move (t.offset + limit) t
      else t

  unfoldable pub refilter : F → Table R F → Table R F
  unfolding ask
  refilter filters t = ask (record t { offset = 0; filters = filters })

  -- The button "Refresh" is disabled while a request is on its way.
  unfoldable pub refresh_denials : Table R F → Table R F
  unfolding ask
  refresh_denials t = if t.loading then t else ask t

  -- The log goes back to its start, but asks with the offset that it had; the new offset then asks
  -- again.
  unfoldable pub refresh_audit : Table R F → Table R F
  unfolding ask
  refresh_audit t =
      if t.loading
      then t
      else if nat_eq t.offset 0
      then ask t
      else ask (record (ask t) { offset = 0 })

  -- The events of a table: what "Refresh" does, and what the clock.
  unfoldable pub act :
      (Table R F → Table R F) → (Table R F → Table R F) → Event R F → Table R F → Table R F
  unfolding to_prev to_next refilter receive
  act on_refresh on_tick (filter filters) t = refilter filters t
  act on_refresh on_tick prev t = to_prev t
  act on_refresh on_tick next t = to_next t
  act on_refresh on_tick refresh t = on_refresh t
  act on_refresh on_tick ticked t = on_tick t
  act on_refresh on_tick (answered i d) t = receive i d t
  act on_refresh on_tick (failed i) t = record t {
    loading = false;
    pending = remove_at i t.pending;
  }

pub record DenialFilters : Type 0 where
  pub user : String
  pub dst : String

pub record AuditFilters : Type 0 where
  pub actor : String
  pub action : String

unfoldable pub act_denials :
    Event DenialRow DenialFilters → Table DenialRow DenialFilters → Table DenialRow DenialFilters
unfolding act refresh_denials ask
act_denials e t = act refresh_denials ask e t

-- The audit log has no clock.
unfoldable pub act_audit :
    Event AuditRow AuditFilters → Table AuditRow AuditFilters → Table AuditRow AuditFilters
unfolding act refresh_audit
act_audit e t = act refresh_audit (λ t. t) e t

abbrev if_given : String → Option Param
if_given s = if truthy s then some (word s) else none

-- What `api.adminDenials` and `api.adminAudit` are called with.
abbrev denial_params : Asked DenialFilters → Dict (Option Param)
denial_params a =
    ("limit", some (count limit))
    ∷ ("offset", some (count a.offset))
    ∷ ("user_id", if_given a.filters.user)
    ∷ ("dst_ip", if_given a.filters.dst)
    ∷ []

abbrev audit_params : Asked AuditFilters → Dict (Option Param)
audit_params a =
    ("limit", some (count limit))
    ∷ ("offset", some (count a.offset))
    ∷ ("actor", if_given a.filters.actor)
    ∷ ("action", if_given a.filters.action)
    ∷ []

-- `relTime`, of the seconds since; `date` is the date as a text.
abbrev rel_time : (date : String) → (diff : ℕ) → String
rel_time date diff =
    if ltb diff 60
    then path (decimal diff ∷ "s ago" ∷ [])
    else if ltb diff 3600
    then path (decimal (diff / 60) ∷ "m ago" ∷ [])
    else if ltb diff 86400
    then path (decimal (diff / 3600) ∷ "h ago" ∷ [])
    else date

abbrev label : Option String → String
label none = ""
label (some s) = s

-- What a row of the log names as its target.
abbrev target_label : AuditRow → String
target_label r = if truthy (label r.target_label) then label r.target_label else label r.target_id

pub record Health : Type 0 where
  pub diagnostics : List Diagnostic
  pub refreshing : Bool

-- The load of the health checks ends with an answer or in silence.
abbrev checked : Option (Option (List Diagnostic)) → Health → Health
checked none h = record h { refreshing = false }
checked (some d) h = record h { diagnostics = or_else d []; refreshing = false }

abbrev is_empty {ℓ} : {A : Type ℓ} → List A → Bool
is_empty [] = true
is_empty (_ ∷ _) = false

-- "All clear"
abbrev is_all_clear : Health → Bool
is_all_clear h = is_empty h.diagnostics

unfoldable pub run {ℓ} : {E S : Type ℓ} → (E → S → S) → List E → S → S
run step [] s = s
run step (e ∷ es) s = run step es (step e s)
