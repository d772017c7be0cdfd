-- ===== src/Webui/System/Reports/Paging.antt =====
-- The pages of the denials and of the audit log (server/webui/src/pages/System.tsx).
use pro_identity_access.Base.{
  ℕ, zero, suc, ◌+◌, ◌-◌, ◌*◌, Bool, true, false, ◌≡◌, List, [], ◌∷◌, All, All-append, nat_eq,
  if◌then◌else◌, arith,
}
use pro_identity_access.Webui.Rows.{DenialRow, AuditRow}
use pro_identity_access.Webui.System.Reports.{
  limit, Table, Event, filter, prev, next, refresh, ticked, answered, failed, ask, move, remove_at,
  to_prev, to_next, refilter, refresh_denials, refresh_audit, receive, act, act_denials, act_audit,
  DenialFilters, AuditFilters, run,
}

-- A page starts here.
abbrev IsStart : ℕ → Type 0
IsStart offset = (k : ℕ) × (offset ≡ k * limit)

abbrev pub IsAligned : {R F : Type 0} → Table R F → Type 0
IsAligned t = IsStart t.offset × All (λ a. IsStart a.offset) t.pending

All-remove_at :
    {A : Type 0} (P : A → Type 0) (i : ℕ) (xs : List A) → All P xs → All P (remove_at i xs)
All-remove_at P i [] h = tt
All-remove_at P zero (x ∷ xs) (p, h) = h
All-remove_at P (suc i) (x ∷ xs) (p, h) = (p, All-remove_at P i xs h)

next-IsStart : (o : ℕ) → IsStart o → IsStart (o + limit)
next-IsStart o (k, e) = (suc k, omega arith)

prev-IsStart : (o : ℕ) → IsStart o → IsStart (o - limit)
prev-IsStart o (zero, e) = (0, omega arith)
prev-IsStart o (suc k, e) = (k, omega arith)

module _ {R F : Type 0} where
  ask-IsAligned : (t : Table R F) → IsAligned t → IsAligned (ask t)
  unfolding ask
  ask-IsAligned t (s, h) = (s, All-append (λ a. IsStart a.offset) t.pending _ h (s, tt))

  move-IsAligned :
      (b : Bool) (o : ℕ) (t : Table R F)
      → IsStart o
      → IsAligned t
      → IsAligned (if b then t else move o t)
  move-IsAligned true o t s h = h
  move-IsAligned false o t s (_, h) = ask-IsAligned (record t { offset = o }) (s, h)

  paged-IsAligned :
      (b c : Bool) (o : ℕ) (t : Table R F)
      → IsStart o
      → IsAligned t
      → IsAligned (if b then if c then t else move o t else t)
  paged-IsAligned true c o t s h = move-IsAligned c o t s h
  paged-IsAligned false c o t s h = h

  refresh_denials-IsAligned : (t : Table R F) → IsAligned t → IsAligned (refresh_denials t)
  unfolding refresh_denials
  refresh_denials-IsAligned t h = move-IsAligned t.loading t.offset t (h.0) h

  audit-IsAligned :
      (loading at_start : Bool) (t : Table R F)
      → IsAligned t
      → IsAligned
          (if loading then t else if at_start then ask t else ask (record (ask t) { offset = 0 }))
  audit-IsAligned true b t h = h
  audit-IsAligned false true t h = ask-IsAligned t h
  audit-IsAligned false false t h =
      let (s, p) = ask-IsAligned t h in
      ask-IsAligned (record (ask t) { offset = 0 }) ((0, omega arith), p)

  refresh_audit-IsAligned : (t : Table R F) → IsAligned t → IsAligned (refresh_audit t)
  unfolding refresh_audit
  refresh_audit-IsAligned t h = audit-IsAligned t.loading (nat_eq t.offset 0) t h

  module _ (on_refresh on_tick : Table R F → Table R F)
      (refreshes : (t : Table R F) → IsAligned t → IsAligned (on_refresh t))
      (ticks : (t : Table R F) → IsAligned t → IsAligned (on_tick t)) where
    act-IsAligned :
        (e : Event R F) (t : Table R F) → IsAligned t → IsAligned (act on_refresh on_tick e t)
    unfolding act to_prev to_next refilter receive
    act-IsAligned (filter fs) t (_, h) =
        ask-IsAligned (record t { offset = 0; filters = fs }) ((0, omega arith), h)
    act-IsAligned prev t h = paged-IsAligned _ _ _ t (prev-IsStart t.offset h.0) h
    act-IsAligned next t h = paged-IsAligned _ _ _ t (next-IsStart t.offset h.0) h
    act-IsAligned refresh t h = refreshes t h
    act-IsAligned ticked t h = ticks t h
    act-IsAligned (answered i d) t (s, h) = (s, All-remove_at (λ a. IsStart a.offset) i t.pending h)
    act-IsAligned (failed i) t (s, h) = (s, All-remove_at (λ a. IsStart a.offset) i t.pending h)

module _ {E S : Type 0} (P : S → Type 0) (step : E → S → S)
    (keeps : (e : E) (s : S) → P s → P (step e s)) where
  run_keeps : (es : List E) (s : S) → P s → P (run step es s)
  unfolding run
  run_keeps [] s h = h
  run_keeps (e ∷ es) s h = run_keeps es (step e s) (keeps e s h)

act_denials-IsAligned :
    (e : Event DenialRow DenialFilters) (t : Table DenialRow DenialFilters)
    → IsAligned t
    → IsAligned (act_denials e t)
unfolding act_denials
act_denials-IsAligned = act-IsAligned _ _ refresh_denials-IsAligned ask-IsAligned

act_audit-IsAligned :
    (e : Event AuditRow AuditFilters) (t : Table AuditRow AuditFilters)
    → IsAligned t
    → IsAligned (act_audit e t)
unfolding act_audit
act_audit-IsAligned = act-IsAligned _ _ refresh_audit-IsAligned (λ t h. h)

-- In both tables the offset stays the start of a page, and so does what each request asks for,
-- whatever is clicked and however the requests end.
pub run-IsAligned :
    (ds : List (Event DenialRow DenialFilters)) (d : Table DenialRow DenialFilters)
    (es : List (Event AuditRow AuditFilters)) (a : Table AuditRow AuditFilters)
    → IsAligned d
    → IsAligned a
    → IsAligned (run act_denials ds d) × IsAligned (run act_audit es a)
run-IsAligned ds d es a h k = (
  run_keeps IsAligned act_denials act_denials-IsAligned ds d h,
  run_keeps IsAligned act_audit act_audit-IsAligned es a k,
)
