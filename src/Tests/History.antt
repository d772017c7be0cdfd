-- ===== src/Tests/History.antt =====
-- The connection history with 120 events, and the tables of the system page.
use pro_identity_access.Base.{
  if◌then◌else◌, ℕ, ◌+◌, ◌-◌, ◌/◌, ◌≤◌, false, ◌&&◌, String, ◌≡◌, ◌↔◌, refl, none, some, List, [],
  ◌∷◌, ◌==◌, arith, Dict, lookup,
}
use pro_identity_access.Webui.Auth.{AuthState}
use pro_identity_access.Webui.Rows.{DenialRow, AuditRow}
use pro_identity_access.Webui.History.{
  History, initial, page_numbers, in_range, page_count, go_to, from, to, set_user_id,
}
use pro_identity_access.Webui.History.Numbers.{IsSpaced, shows, is_near, page_numbers_lem}
use pro_identity_access.Webui.History.Pages.{shows-page}
use pro_identity_access.Webui.History.Acts.{
  Event, IsPaged, run, last_page, sized, filtered, answered, run-IsPaged,
}
use pro_identity_access.Webui.System.Settings.{payload, typed, lookup-payload}
use pro_identity_access.Webui.System.Reports
use pro_identity_access.Webui.System.Reports.{
  Table, DenialFilters, AuditFilters, limit, act_denials, act_audit,
}
use pro_identity_access.Webui.System.Reports.Paging.{IsAligned, run-IsAligned}
use pro_identity_access.Webui.System.Reports.Refresh.{asked, run-Held, refresh_race}
use pro_identity_access.Webui.System.Roles.{UserRoles, is_dirty, members_of, collect}
use pro_identity_access.Webui.System.Roles.Granted.{SameSet, is_dirty_lem}
use pro_identity_access.Webui.System.Roles.Members.{with_role, members_of-collect}
use pro_identity_access.Tests.Web.{ada, session}

page_numbers_lem_example :
    IsSpaced (page_numbers 5 12) × (shows 3 (page_numbers 5 12) ≡ (in_range 12 3 && is_near 5 12 3))
page_numbers_lem_example = page_numbers_lem 5 12 3

abbrev many : History
many = record initial { total = 120 }

shows-page_example :
    ((51 - 1) / 50 + 1 ≤ page_count many)
    × (((from (go_to 2 many) ≤ 51) × (51 ≤ to (go_to 2 many))) ↔ (2 ≡ (51 - 1) / 50 + 1))
unfolding page_count
shows-page_example =
    shows-page 51 2 many (omega arith) (omega arith) (omega arith) (omega arith) (omega arith)

abbrev clicks : List Event
clicks =
    answered (record { items = none; total = some 120 })
    ∷ last_page
    ∷ sized 25
    ∷ filtered (set_user_id "u")
    ∷ []

run-IsPaged_example : IsPaged (run clicks initial)
run-IsPaged_example = run-IsPaged clicks initial (refl, (0, omega arith))

abbrev auditor : AuthState
auditor = record session {
  user = some (record ada { permissions = some ("diagnostics.read" ∷ []) });
}

abbrev form : Dict String
form = ("vpn_name", "Office") ∷ ("push_auth_api_key", "__configured__") ∷ []

lookup-payload_example : lookup "push_auth_api_key" (payload form) ≡ (
    if "push_auth_api_key" == "push_auth_api_key"
    then typed (lookup "push_auth_api_key" form)
    else lookup "push_auth_api_key" form)
unfolding lookup
lookup-payload_example = lookup-payload "push_auth_api_key" form (refl, (refl, tt))

abbrev denials : Table DenialRow DenialFilters
denials = record {
  rows = [];
  total = 40;
  offset = 50;
  filters = record { user = ""; dst = "" };
  loading = false;
  pending = [];
}

abbrev audit : Table AuditRow AuditFilters
audit = record {
  rows = [];
  total = 120;
  offset = 50;
  filters = record { actor = ""; action = "" };
  loading = false;
  pending = [];
}

abbrev tries : List (Reports.Event DenialRow DenialFilters)
tries =
    Reports.prev
    ∷ Reports.refresh
    ∷ Reports.answered 0 (record { items = none; total = some 40 })
    ∷ Reports.ticked
    ∷ []

run-IsAligned_example :
    IsAligned (Reports.run act_denials tries denials)
    × IsAligned (Reports.run act_audit (Reports.next ∷ Reports.refresh ∷ []) audit)
run-IsAligned_example =
    run-IsAligned tries denials (Reports.next ∷ Reports.refresh ∷ []) audit ((1, refl), tt)
      ((1, refl), tt)

run-Held_example :
    ((Reports.run act_denials tries denials).total ≤ limit)
    × ((Reports.run act_denials tries denials).offset ≡ 50)
run-Held_example = run-Held tries denials (tt, (tt, (omega arith, (tt, tt)))) (omega arith)

abbrev answer : ℕ → Reports.Answer AuditRow
answer n = record { items = none; total = some n }

refresh_race_example :
    (((act_audit Reports.refresh audit).pending ≡ asked 50 audit ∷ asked 0 audit ∷ [])
      × ((Reports.run act_audit
            (Reports.refresh
              ∷ Reports.answered 1 (answer 121)
              ∷ Reports.answered 0 (answer 120)
              ∷ [])
            audit).rows
          ≡ []))
    × ((Reports.run act_audit
          (Reports.refresh ∷ Reports.answered 1 (answer 121) ∷ Reports.answered 0 (answer 120) ∷ [])
          audit).offset
        ≡ 0)
refresh_race_example = refresh_race audit (answer 120) (answer 121) refl refl refl

-- The same permissions, ticked in another order.
is_dirty_lem_example :
    (is_dirty ("a" ∷ "b" ∷ []) ("b" ∷ "a" ∷ []) ≡ false) ↔ SameSet ("a" ∷ "b" ∷ []) ("b" ∷ "a" ∷ [])
is_dirty_lem_example = is_dirty_lem ("a" ∷ "b" ∷ []) ("b" ∷ "a" ∷ [])

abbrev lists : List UserRoles
lists =
    record { user = ada; role_ids = "r1" ∷ "r2" ∷ [] }
    ∷ record { user = ada; role_ids = "r1" ∷ [] }
    ∷ []

members_of-collect_example : members_of "r1" (collect lists []) ≡ with_role "r1" lists
members_of-collect_example = members_of-collect "r1" lists
