-- ===== src/Webui/ServerConfig.antt =====
-- server/webui/src/pages/ServerDetail.tsx: the configuration of a server and its endpoints.
-- `parse_int` is JavaScript's `parseInt`, `none` for no number.
pub mod Endpoints
pub mod Edits
use Prim.Native.String
use pro_identity_access.Base.{
  ℕ, zero, suc, ℤ, pos, negsuc, int_eq, or_int, ◌+◌, ◌*◌, String, Bool, true, false, not, ◌&&◌,
  ◌||◌, Option, none, some, List, [], ◌∷◌, ◌++◌, map, keep, find, or_else, truthy, nat_eq, ltb,
  length, ◌==◌, if◌then◌else◌,
}
use pro_identity_access.Async.{Async, set, ◌>>=◌, ◌>>◌}
use pro_identity_access.Webui.Types.{WgServer, WgServerEndpoint, WgServerEndpointInput}
use pro_identity_access.Webui.Client.{decimal, path}

abbrev or_text : String → String → String
or_text a b = if truthy a then a else b

abbrev pub default_port : ℤ
default_port = pos 51820

-- `String(n)`
abbrev int_text : ℤ → String
int_text (pos n) = decimal n
int_text (negsuc n) = String.◌++◌ "-" (decimal (suc n))

abbrev of_endpoint : WgServerEndpoint → WgServerEndpointInput
of_endpoint e = record {
  name = e.name;
  host = e.host;
  port = e.port;
  priority = e.priority;
  enabled = some e.enabled;
}

abbrev primary : WgServer → WgServerEndpointInput
primary s = record {
  name = "Primary";
  host = s.endpoint;
  port = or_int s.port default_port;
  priority = pos 0;
  enabled = some true;
}

abbrev if_none : WgServer → List WgServerEndpointInput → List WgServerEndpointInput
if_none s [] = primary s ∷ []
if_none s (r ∷ rs) = r ∷ rs

-- `endpointForms`
unfoldable pub endpoint_forms : WgServer → List WgServerEndpointInput
endpoint_forms s =
    if_none s
      (map of_endpoint (keep (λ (e : WgServerEndpoint). e.enabled) (or_else s.endpoints [])))

pub record Form : Type 0 where
  pub name : String
  pub endpoint : String
  pub port : String
  pub dns : String

pub record Config : Type 0 where
  pub form : Form
  pub endpoints : List WgServerEndpointInput
  pub busy : Bool

abbrev form_of : WgServer → Form
form_of s = record {
  name = s.name;
  endpoint = s.endpoint;
  port = int_text s.port;
  dns = or_else s.dns "";
}

-- Another server is shown.
unfoldable pub reset : WgServer → Config → Config
unfolding endpoint_forms
reset s c = record c { form = form_of s; endpoints = endpoint_forms s }

abbrev same_flag : Option Bool → Option Bool → Bool
same_flag none none = true
same_flag (some true) (some true) = true
same_flag (some false) (some false) = true
same_flag _ _ = false

abbrev same_input : WgServerEndpointInput → WgServerEndpointInput → Bool
same_input a b =
    a.name == b.name
    && a.host == b.host
    && int_eq a.port b.port
    && int_eq a.priority b.priority
    && same_flag a.enabled b.enabled

-- `JSON.stringify(a) === JSON.stringify(b)`
abbrev same_inputs : List WgServerEndpointInput → List WgServerEndpointInput → Bool
same_inputs [] [] = true
same_inputs (x ∷ xs) (y ∷ ys) = same_input x y && same_inputs xs ys
same_inputs _ _ = false

abbrev is_number : Option ℤ → ℤ → Bool
is_number none n = false
is_number (some m) n = int_eq m n

abbrev name_or : (i : ℕ) → String → String
name_or zero name = or_text name "Primary"
name_or (suc i) name = or_text name "Failover"

abbrev priority_or : (i : ℕ) → (priority : ℤ) → ℤ
priority_or zero p = pos 0
priority_or (suc i) p = or_int p (pos (suc i * 10))

-- A row as it is sent, from its place in the list on.
abbrev pub clean_at :
    (trim : String → String) → (port : ℤ) → (i : ℕ) → WgServerEndpointInput → WgServerEndpointInput
clean_at trim port i ep = record {
  name = name_or i ep.name;
  host = trim ep.host;
  port = or_int ep.port port;
  priority = priority_or i ep.priority;
  enabled = some (or_else ep.enabled true);
}

-- `cleanEndpoints`, from the `i`-th row on.
unfoldable pub clean :
    (trim : String → String)
    → (port : ℤ) → (i : ℕ) → List WgServerEndpointInput
    → List WgServerEndpointInput
clean trim port i [] = []
clean trim port i (ep ∷ eps) =
    let rest = clean trim port (suc i) eps in
    let r = clean_at trim port i ep in if truthy r.host then r ∷ rest else rest

pub data Edit : Type 0 where
  set_name set_endpoint set_port set_dns : String → Edit  -- of the form
  name_at host_at port_at priority_at : ℕ → String → Edit
  remove : ℕ → Edit
  add : Edit

abbrev pub change_at {ℓ} : {A : Type ℓ} → ℕ → (A → A) → List A → List A
change_at i f [] = []
change_at zero f (x ∷ xs) = f x ∷ xs
change_at (suc i) f (x ∷ xs) = x ∷ change_at i f xs

abbrev pub remove_at {ℓ} : {A : Type ℓ} → ℕ → List A → List A
remove_at i [] = []
remove_at zero (x ∷ xs) = xs
remove_at (suc i) (x ∷ xs) = x ∷ remove_at i xs

module _ (parse_int : String → Option ℤ) where
  -- The port that is sent, and that new rows get.
  unfoldable pub port_of : WgServer → Form → ℤ
  port_of s f = or_int (or_else (parse_int f.port) (pos 0)) (or_int s.port default_port)

  abbrev is_dirty : WgServer → Config → Bool
  unfolding endpoint_forms
  is_dirty s c =
      not (c.form.name == s.name)
      || not (c.form.endpoint == s.endpoint)
      || not (is_number (parse_int c.form.port) s.port)
      || not (c.form.dns == or_else s.dns "")
      || not (same_inputs c.endpoints (endpoint_forms s))

  abbrev first_host : ℕ → String → Form → Form
  first_host zero host f = record f { endpoint = host }
  first_host (suc i) host f = f

  abbrev first_port : ℕ → String → Form → Form
  first_port zero text f = record f { port = text }
  first_port (suc i) text f = f

  unfoldable pub edit : WgServer → Edit → Config → Config
  unfolding port_of
  edit s (set_name x) c = record c { form = record c.form { name = x } }
  edit s (set_endpoint x) c = record c { form = record c.form { endpoint = x } }
  edit s (set_port x) c = record c { form = record c.form { port = x } }
  edit s (set_dns x) c = record c { form = record c.form { dns = x } }
  edit s (name_at i x) c = record c {
    endpoints = change_at i (λ (ep : WgServerEndpointInput). record ep { name = x }) c.endpoints;
  }
  edit s (host_at i x) c = record c {
    endpoints = change_at i (λ (ep : WgServerEndpointInput). record ep { host = x }) c.endpoints;
    form = first_host i x c.form;
  }
  edit s (port_at i x) c = record c {
    endpoints =
        change_at i
          (λ (ep : WgServerEndpointInput). record ep { port = or_else (parse_int x) (pos 0) })
          c.endpoints;
    form = first_port i x c.form;
  }
  edit s (priority_at i x) c = record c {
    endpoints =
        change_at i
          (λ (ep : WgServerEndpointInput). record ep { priority = or_else (parse_int x) (pos 0) })
          c.endpoints;
  }
  edit s (remove i) c =
      if nat_eq (length c.endpoints) 1 then c else record c { endpoints = remove_at i c.endpoints }
  edit s add c = record c {
    endpoints =
        c.endpoints
        ++ record {
          name = "Failover";
          host = "";
          port = port_of s c.form;
          priority = pos (length c.endpoints * 10);
          enabled = some true;
        }
          ∷ [];
  }

  unfoldable pub edit_all : WgServer → List Edit → Config → Config
  unfolding edit
  edit_all s [] c = c
  edit_all s (e ∷ es) c = edit_all s es (edit s e c)

-- What is sent.
pub record Update : Type 0 where
  pub name : String
  pub endpoint : String
  pub port : ℤ
  pub dns : String
  pub endpoints : List WgServerEndpointInput

unfoldable pub update_of :
    (trim : String → String) → (parse_int : String → Option ℤ) → WgServer → Config → Update
unfolding clean port_of
update_of trim parse_int s c = record {
  name = c.form.name;
  endpoint = c.form.endpoint;
  port = port_of parse_int s c.form;
  dns = c.form.dns;
  endpoints = clean trim (port_of parse_int s c.form) 0 c.endpoints;
}

module _ {W : Type 0} (update_server : (id : String) → Update → Async (Config × W) (Unit {0}))
    (on_saved : Async (Config × W) (Unit {0})) where
  -- `save`, of what was drawn; nothing catches what it throws.
  abbrev save :
      (trim : String → String)
      → (parse_int : String → Option ℤ) → WgServer
      → Config
      → Async (Config × W) (Unit {0})
  unfolding update_of
  save trim parse_int s drawn state =
      let (r, (c, w)) =
        (do
          set (λ c. record c { busy = true })
          update_server s.id (update_of trim parse_int s drawn)
          on_saved)
          state in
      (r, (record c { busy = false }, w))
