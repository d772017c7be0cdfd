-- ===== src/Webui/Client.antt =====
-- server/webui/src/api/client.ts: the requests to the server's API. `fetch`, `encodeURIComponent`,
-- the printing of a query and of a number, and the TypeError of a property of null are the
-- browser's, and the parameter `web`. The data of an answer is a JSON value, since `data as T`
-- checks nothing.
pub mod Queries
pub mod Requests
pub mod Account
pub mod Admin
pub mod Servers
pub mod Profiles
use Prim.Native.String
use pro_identity_access.Base.{
  ℕ, String, Bool, true, false, Option, none, some, List, [], ◌∷◌, ◌++◌, Dict, insert, or_else,
  truthy, if◌then◌else◌, zero, suc, ◌==◌, ◌/◌, ◌%◌, ltb, nat_eq,
}
use pro_identity_access.Async.{Thrown, js_error, Outcome, ok, threw, Async, pure, throw, ◌>>=◌}
use pro_identity_access.Webui.Auth.{AuthState}

-- The values of JSON.
mutual
  pub data Json : Type 0 where
    null : Json
    bool : Bool → Json
    number : ℕ → Json
    text : String → Json
    array : Items → Json
    object : Members → Json

  pub data Items : Type 0 where
    end : Items
    item : Json → Items → Items

  pub data Members : Type 0 where
    nil : Members
    member : String → Json → Members → Members

abbrev or_some : {A : Type 0} → Option A → Option A → Option A
or_some none o = o
or_some (some a) o = some a

-- The member of a name; of two, the last.
abbrev find_member : String → Members → Option Json
find_member k nil = none
find_member k (member j v ms) =
    let rest = find_member k ms in or_some rest (if j == k then some v else none)

-- What `fetch` is given, and what it answers; `json` is `await res.json()`.
pub record Request : Type 0 where
  pub method : String
  pub url : String
  pub headers : Dict String
  pub body : Option Json

pub record Response : Type 0 where
  pub is_ok : Bool
  pub status : ℕ
  pub json : Outcome Json

abbrev pub State : Type 0 → Type 0
State W = AuthState × W

-- The browser, as far as the client uses it.
pub record Web (W : Type 0) : Type 0 where
  pub fetch : Request → Async (State W) Response
  pub encode : String → String  -- `encodeURIComponent`
  pub query_text : Dict String → String  -- `URLSearchParams.toString`
  pub string_of : Json → String  -- `String(x)`
  pub null_property : Thrown  -- the TypeError of `null.error`

abbrev digit : ℕ → String
digit n =
    if nat_eq n 0
    then "0"
    else if nat_eq n 1
    then "1"
    else if nat_eq n 2
    then "2"
    else if nat_eq n 3
    then "3"
    else if nat_eq n 4
    then "4"
    else if nat_eq n 5
    then "5"
    else if nat_eq n 6
    then "6"
    else if nat_eq n 7
    then "7"
    else if nat_eq n 8
    then "8"
    else "9"

decimal_from : (fuel n : ℕ) → String
decimal_from zero n = ""
decimal_from (suc fuel) n =
    let rest = decimal_from fuel (n / 10) in
    if ltb n 10 then digit n else String.◌++◌ rest (digit (n % 10))

-- A whole number in a template; each digit takes one step, and there are at most as many digits as
-- one more than the number.
unfoldable pub decimal : ℕ → String
unfolding decimal_from
decimal n = decimal_from (suc n) n

unfoldable pub token : AuthState → String
token s = or_else s.stored ""

unfoldable pub headers : String → Dict String
headers token =
    ("Content-Type", "application/json")
    ∷ (if truthy token then ("Authorization", String.◌++◌ "Bearer " token) ∷ [] else [])

-- `data.error ?? ...`, as the text that `new Error` makes of it
abbrev shown_error : {W : Type 0} → Web W → ℕ → Option Json → String
shown_error web status none = String.◌++◌ "HTTP " (decimal status)
shown_error web status (some null) = String.◌++◌ "HTTP " (decimal status)
shown_error web status (some (bool b)) = web.string_of (bool b)
shown_error web status (some (number n)) = web.string_of (number n)
shown_error web status (some (text s)) = s
shown_error web status (some (array xs)) = web.string_of (array xs)
shown_error web status (some (object ms)) = web.string_of (object ms)

unfoldable pub error_text : {W : Type 0} → Web W → ℕ → Json → Outcome String
unfolding decimal
error_text web status null = threw web.null_property
error_text web status (bool b) = ok (String.◌++◌ "HTTP " (decimal status))
error_text web status (number n) = ok (String.◌++◌ "HTTP " (decimal status))
error_text web status (text s) = ok (String.◌++◌ "HTTP " (decimal status))
error_text web status (array xs) = ok (String.◌++◌ "HTTP " (decimal status))
error_text web status (object ms) = ok (shown_error web status (find_member "error" ms))

abbrev from_outcome : {W A : Type 0} → Outcome A → Async (State W) A
from_outcome (ok a) = pure a
from_outcome (threw e) = throw e

-- What `request` does with the answer of `fetch`.
unfoldable pub receive : {W : Type 0} → Web W → Response → Async (State W) Json
unfolding error_text
receive web res = do
  answer ← from_outcome res.json
  if res.is_ok then pure answer else do
    message ← from_outcome (error_text web res.status answer)
    throw (js_error "Error" message)

unfoldable pub request :
    {W : Type 0} → Web W → (method path : String) → (body : Option Json) → Async (State W) Json
request web method path body (s, w) =
    (web.fetch (record {
      method = method;
      url = String.◌++◌ "/api/v1" path;
      headers = headers (token s);
      body = body;
    })
        >>= receive web)
      (s, w)

-- The value of a parameter of a query.
pub data Param : Type 0 where
  word : String → Param
  count : ℕ → Param

abbrev pub sent : Option Param → Option String
sent none = none
sent (some (word s)) = if truthy s then some s else none
sent (some (count n)) = some (decimal n)

abbrev set_param : String → Option String → Dict String → Dict String
set_param k none q = q
set_param k (some v) q = insert k v q

-- `Object.entries(params).forEach(([k, v]) => { if (v != null && v !== '') q.set(k, String(v)) })`
unfoldable pub set_params : Dict (Option Param) → Dict String → Dict String
set_params [] q = q
set_params ((k, v) ∷ params) q = set_params params (set_param k (sent v) q)

-- `${qs ? '?' + qs : ''}`
abbrev question : String → String
question qs = if truthy qs then String.◌++◌ "?" qs else ""

unfoldable pub query : {W : Type 0} → Web W → Dict (Option Param) → String
unfolding set_params
query web params = question (web.query_text (set_params params []))

-- A template of texts.
abbrev pub path : List String → String
path [] = ""
path (s ∷ parts) = String.◌++◌ s (path parts)

-- A member that is left out when it is undefined.
abbrev pub optional : String → Option String → Members → Members
optional k none ms = ms
optional k (some s) ms = member k (text s) ms

abbrev string_items : List String → Items
string_items [] = end
string_items (s ∷ ss) = item (text s) (string_items ss)

abbrev pub strings : List String → Json
strings ss = array (string_items ss)
