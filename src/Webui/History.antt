-- ===== src/Webui/History.antt =====
-- server/webui/src/pages/ConnectionHistory.tsx: the filters and the pages of the connection history.
-- A page is asked for whenever the parameters change; `Dates` gives the browser's time less some
-- hours or days, at the last such change.
pub mod Numbers
pub mod Pages
pub mod Acts
use Prim.Native.String
use pro_identity_access.Base.{
  ℕ, ◌+◌, ◌-◌, ◌*◌, ◌/◌, min, max, String, Bool, true, false, not, ◌&&◌, ◌||◌, Option, none, some,
  List, [], ◌∷◌, keep, or_else, truthy, ltb, leb, nat_eq, ◌==◌, if◌then◌else◌, Dict,
}
use pro_identity_access.Async.{Async, Thrown, message_or, catch, set, ◌>>=◌, ◌>>◌}
use pro_identity_access.Webui.Types.{User, WgServer}
use pro_identity_access.Webui.Rows.{VpnEvent}
use pro_identity_access.Webui.Client.{Param, word, count, decimal, path}

pub data EventFilter : Type 0 where
  all connected disconnected : EventFilter

pub data SinceFilter : Type 0 where
  last_day last_week last_month ever : SinceFilter

pub record Filters : Type 0 where
  pub q : String
  pub user_id : String
  pub server_id : String
  pub event : EventFilter
  pub source_ip : String
  pub device : String
  pub since : SinceFilter

abbrev default_filters : Filters
default_filters = record {
  q = "";
  user_id = "";
  server_id = "";
  event = all;
  source_ip = "";
  device = "";
  since = last_week;
}

abbrev pub page_sizes : List ℕ
page_sizes = 25 ∷ 50 ∷ 100 ∷ []

pub record History : Type 0 where
  pub events : List VpnEvent
  pub users : List User
  pub servers : List WgServer
  pub filters : Filters
  pub search : String
  pub page_size : ℕ
  pub offset : ℕ
  pub total : ℕ
  pub loading : Bool
  pub error : String

abbrev pub initial : History
initial = record {
  events = [];
  users = [];
  servers = [];
  filters = default_filters;
  search = "";
  page_size = 50;
  offset = 0;
  total = 0;
  loading = true;
  error = "";
}

pub record Dates : Type 0 where
  pub hours_ago : ℕ → String  -- in ISO form
  pub days_ago : ℕ → String

-- `sinceDate`
abbrev since_date : Dates → SinceFilter → Option String
since_date dates last_day = some (dates.hours_ago 24)
since_date dates last_week = some (dates.days_ago 7)
since_date dates last_month = some (dates.days_ago 30)
since_date dates ever = none

abbrev wanted_event : EventFilter → Option Param
wanted_event all = none
wanted_event connected = some (word "connected")
wanted_event disconnected = some (word "disconnected")

abbrev dated : Option String → Option Param
dated none = none
dated (some d) = some (word d)

-- The parameters of the request.
abbrev params : (trim : String → String) → Dates → History → Dict (Option Param)
params trim dates h =
    ("limit", some (count h.page_size))
    ∷ ("offset", some (count h.offset))
    ∷ ("q", some (word (trim h.filters.q)))
    ∷ ("user_id", some (word h.filters.user_id))
    ∷ ("server_id", some (word h.filters.server_id))
    ∷ ("event", wanted_event h.filters.event)
    ∷ ("source_ip", some (word (trim h.filters.source_ip)))
    ∷ ("device", some (word (trim h.filters.device)))
    ∷ ("since", dated (since_date dates h.filters.since))
    ∷ []

pub record Answer : Type 0 where
  pub items : Option (List VpnEvent)
  pub total : Option ℕ

abbrev pub receive : Answer → History → History
receive answer h = record h { events = or_else answer.items []; total = or_else answer.total 0 }

abbrev pub start : History → History
start h = record h { loading = true; error = "" }

abbrev pub stop : History → History
stop h = record h { loading = false }

abbrev pub fail : Thrown → History → History
fail e h = record h { error = message_or "Failed to load connection history" e }

module _ {W : Type 0} (list_vpn_events : Dict (Option Param) → Async (History × W) Answer) where
  abbrev load : Dict (Option Param) → Async (History × W) (Unit {0})
  load ps = do
    set start
    catch (do answer ← list_vpn_events ps; set (receive answer)) (λ e. set (fail e))
    set stop

-- A change of one filter.
pub data Change : Type 0 where
  set_q set_user_id set_server_id set_source_ip set_device : String → Change
  set_event : EventFilter → Change
  set_since : SinceFilter → Change

abbrev changed : Change → Filters → Filters
changed (set_q s) f = record f { q = s }
changed (set_user_id s) f = record f { user_id = s }
changed (set_server_id s) f = record f { server_id = s }
changed (set_source_ip s) f = record f { source_ip = s }
changed (set_device s) f = record f { device = s }
changed (set_event e) f = record f { event = e }
changed (set_since s) f = record f { since = s }

unfoldable pub update : Change → History → History
update c h = record h { offset = 0; filters = changed c h.filters }

unfoldable pub clear : History → History
clear h = record h { offset = 0; search = ""; filters = default_filters }

-- The search box was left alone for 300 ms.
unfoldable pub paused : History → History
unfolding update
paused h = if h.search == h.filters.q then h else update (set_q h.search) h

unfoldable pub resize : ℕ → History → History
resize n h = record h { offset = 0; page_size = n }

-- `Math.ceil(a / b)`
abbrev pub ceil_div : ℕ → ℕ → ℕ
ceil_div a b = (a + (b - 1)) / b

unfoldable pub page_count : History → ℕ
page_count h = max 1 (ceil_div h.total h.page_size)

unfoldable pub page : History → ℕ
page h = h.offset / h.page_size + 1

unfoldable pub go_to : ℕ → History → History
unfolding page_count
go_to p h = record h { offset = (min (max p 1) (page_count h) - 1) * h.page_size }

unfoldable pub from : History → ℕ
from h = if nat_eq h.total 0 then 0 else h.offset + 1

unfoldable pub to : History → ℕ
to h = min (h.offset + h.page_size) h.total

abbrev pub has_nat : ℕ → List ℕ → Bool
has_nat n [] = false
has_nat n (x ∷ xs) = nat_eq n x || has_nat n xs

-- `new Set(xs)`, from the last element on: the order is settled by the sort.
abbrev pub distinct : List ℕ → List ℕ
distinct [] = []
distinct (x ∷ xs) = let rest = distinct xs in if has_nat x rest then rest else x ∷ rest

abbrev pub place : ℕ → List ℕ → List ℕ
place x [] = x ∷ []
place x (y ∷ ys) = let rest = place x ys in if leb x y then x ∷ y ∷ ys else y ∷ rest

-- `sort((a, b) => a - b)`
abbrev pub sort : List ℕ → List ℕ
sort [] = []
sort (x ∷ xs) = place x (sort xs)

abbrev pub gaps : (previous : ℕ) → List ℕ → List (Option ℕ)
gaps q [] = []
gaps q (p ∷ ps) = let rest = some p ∷ gaps p ps in if ltb 1 (p - q) then none ∷ rest else rest

abbrev pub spaced : List ℕ → List (Option ℕ)
spaced [] = []
spaced (p ∷ ps) = some p ∷ gaps p ps

abbrev pub in_range : ℕ → ℕ → Bool
in_range pages p = leb 1 p && leb p pages

-- `pageNumbers`, for a page from 1 on; `none` is a gap.
unfoldable pub page_numbers : (here pages : ℕ) → List (Option ℕ)
page_numbers here pages =
    spaced
      (sort (distinct (keep (in_range pages) (1 ∷ pages ∷ (here - 1) ∷ here ∷ (here + 1) ∷ []))))

-- `userLabel`
abbrev user_label : (trim : String → String) → User → String
user_label trim u =
    let name = trim (path (u.first_name ∷ " " ∷ u.last_name ∷ [])) in
    if truthy name
    then path (name ∷ " (" ∷ u.username ∷ ")" ∷ [])
    else if truthy u.username
    then u.username
    else u.email

-- `formatRelative`, of the seconds since.
abbrev format_relative : (diff : ℕ) → String
format_relative diff =
    if ltb diff 60
    then path (decimal diff ∷ "s ago" ∷ [])
    else if ltb diff 3600
    then path (decimal (diff / 60) ∷ "m ago" ∷ [])
    else if ltb diff 86400
    then path (decimal (diff / 3600) ∷ "h ago" ∷ [])
    else path (decimal (diff / 86400) ∷ "d ago" ∷ [])
