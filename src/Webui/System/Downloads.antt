-- ===== src/Webui/System/Downloads.antt =====
-- server/webui/src/pages/System.tsx: the cards that download reports. `download` stands for
-- `api.downloadAccessReport` and `api.downloadConnectionReport`, which save a file; the zone is the
-- browser's, and `is_before` its comparison of texts.
use pro_identity_access.Base.{String, Bool, not, ◌||◌, Option, none, some, truthy, if◌then◌else◌}
use pro_identity_access.Async.{Async, Thrown, message_or, catch, set, ◌>>◌}

pub record Card : Type 0 where
  pub busy : Option String  -- the format
  pub error : String

abbrev start : String → Card → Card
start format c = record c { busy = some format; error = "" }

abbrev fail : Thrown → Card → Card
fail e c = record c { error = message_or "Export failed" e }

abbrev stop : Card → Card
stop c = record c { busy = none }

-- A format's button, which is disabled while a report is made.
unfoldable export :
    {W : Type 0}
    → (download : Async (Card × W) (Unit {0})) → (format : String) → Async (Card × W) (Unit {0})
export download format = do set (start format); catch download (λ e. set (fail e)); set stop

pub record Period : Type 0 where
  pub from : String
  pub to : String
  pub user_id : String
  pub server_id : String

abbrev if_given : String → Option String
if_given s = if truthy s then some s else none

-- What the report of connections is asked for with.
pub record Query : Type 0 where
  pub format : String
  pub tz : String
  pub from : String
  pub to : String
  pub user_id : Option String
  pub server_id : Option String

unfoldable query_of : (format tz : String) → Period → Query
query_of format tz p = record {
  format = format;
  tz = tz;
  from = p.from;
  to = p.to;
  user_id = if_given p.user_id;
  server_id = if_given p.server_id;
}

-- What is wrong with the period.
unfoldable problem : (is_before : (a b : String) → Bool) → Period → Option String
problem is_before p =
    if not (truthy p.from) || not (truthy p.to)
    then some "Choose both dates."
    else if is_before p.to p.from
    then some "The end date is before the start date."
    else none

abbrev refuse_or :
    {W : Type 0} → Option String → Async (Card × W) (Unit {0}) → Async (Card × W) (Unit {0})
refuse_or none m = m
refuse_or (some text) m = set (λ (c : Card). record c { error = text })

abbrev export_connections :
    {W : Type 0}
    → (is_before : (a b : String) → Bool) → (download : Query → Async (Card × W) (Unit {0}))
    → (tz format : String) → Period
    → Async (Card × W) (Unit {0})
unfolding export query_of problem
export_connections is_before download tz format p =
    refuse_or (problem is_before p) (export (download (query_of format tz p)) format)
