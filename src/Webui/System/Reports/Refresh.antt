-- ===== src/Webui/System/Reports/Refresh.antt =====
-- The button "Refresh" of the denials and of the audit log (server/webui/src/pages/System.tsx).
use pro_identity_access.Base.{
  ℕ, ◌≤◌, false, ◌≡◌, refl, List, [], ◌∷◌, All, or_else, nat_eq, Bool-cases, inl, inr, arith,
}
use pro_identity_access.Webui.Rows.{DenialRow, AuditRow}
use pro_identity_access.Webui.System.Reports.{
  limit, Asked, Table, Event, filter, prev, next, refresh, ticked, answered, failed, Answer, ask,
  is_paged, to_prev, to_next, refresh_denials, refresh_audit, receive, act, act_denials, act_audit,
  DenialFilters, AuditFilters, run,
}

-- No filter is typed, and the answers count one page of denials at most.
abbrev IsQuiet : {R F : Type 0} → Event R F → Type 0
IsQuiet (filter fs) = ⊥
IsQuiet (answered i d) = or_else d.total 0 ≤ limit
IsQuiet _ = Unit

abbrev Held : {R F : Type 0} → ℕ → Table R F → Type 0
Held offset t = (t.total ≤ limit) × (t.offset ≡ offset)

module _ {R F : Type 0} (offset : ℕ) (t : Table R F) (h : Held offset t) where
  not_paged : is_paged t.total ≡ false
  unfolding is_paged
  not_paged = ground (arith, h.0)

  refresh_denials-Held : Held offset (refresh_denials t)
  unfolding refresh_denials
  refresh_denials-Held = elim (Bool-cases t.loading) [ inl e ↦ rw e h | inr e ↦ rw e h ]

  act-Held : (e : Event R F) → IsQuiet e → Held offset (act refresh_denials ask e t)
  unfolding act ask to_prev to_next receive
  act-Held (filter fs) q = elim q [ ]
  act-Held prev q = rw not_paged h
  act-Held next q = rw not_paged h
  act-Held refresh q = refresh_denials-Held
  act-Held ticked q = h
  act-Held (answered i d) q = (q, h.1)
  act-Held (failed i) q = h

denials-Held :
    (offset : ℕ) (es : List (Event DenialRow DenialFilters)) (t : Table DenialRow DenialFilters)
    → All IsQuiet es
    → Held offset t
    → Held offset (run act_denials es t)
unfolding run act_denials
denials-Held offset [] t q h = h
denials-Held offset (e ∷ es) t (q, qs) h =
    denials-Held offset es (act_denials e t) qs (act-Held offset t h e q)

-- Once the denials fit one page, nothing but typing a filter leads back from a later page: while no
-- filter is typed and the answers count one page at most, the offset stays what it is.
pub run-Held :
    (es : List (Event DenialRow DenialFilters)) (t : Table DenialRow DenialFilters)
    → All IsQuiet es
    → t.total ≤ limit
    → ((run act_denials es t).total ≤ limit) × ((run act_denials es t).offset ≡ t.offset)
run-Held es t q h = denials-Held t.offset es t q (h, refl)

abbrev pub asked : {R F : Type 0} → ℕ → Table R F → Asked F
asked offset t = record { offset = offset; filters = t.filters }

-- "Refresh" in the audit log, on a later page and with no request under way, sends two requests,
-- one for the page that was left and one for the first page; and if the first of them is answered
-- last, the log shows the rows of the page that was left as its first page.
pub refresh_race :
    (t : Table AuditRow AuditFilters) (old new : Answer AuditRow)
    → t.loading ≡ false
    → t.pending ≡ []
    → nat_eq t.offset 0 ≡ false
    → (((act_audit refresh t).pending ≡ asked t.offset t ∷ asked 0 t ∷ [])
        × ((run act_audit (refresh ∷ answered 1 new ∷ answered 0 old ∷ []) t).rows
            ≡ or_else old.items []))
      × ((run act_audit (refresh ∷ answered 1 new ∷ answered 0 old ∷ []) t).offset ≡ 0)
unfolding run act_audit act refresh_audit receive ask
refresh_race t old new l p o = ((rw (l, o, p) refl, refl), rw (l, o) refl)
