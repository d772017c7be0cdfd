-- ===== src/Webui/System/Settings.antt =====
-- server/webui/src/pages/System.tsx: the tab of the settings.
use pro_identity_access.Base.{
  String, Bool, true, false, not, ◌&&◌, ◌||◌, ◌≡◌, refl, inl, inr, ap, ◌∙◌, sym, Option, none, some,
  List, [], ◌∷◌, or_else, ◌==◌, eq_iff, if◌then◌else◌, Bool-cases, Dict, lookup, insert, arith,
}
use pro_identity_access.Async.{Async, Thrown, message_or, catch, set, ◌>>◌}

pub record SettingDef : Type 0 where
  pub key : String
  pub type : String  -- empty for none
  pub secret : Bool

abbrev text : String → SettingDef
text key = record { key = key; type = ""; secret = false }

abbrev number : String → SettingDef
number key = record { key = key; type = "number"; secret = false }

abbrev flag : String → SettingDef
flag key = record { key = key; type = "bool"; secret = false }

abbrev password : String → SettingDef
password key = record { key = key; type = ""; secret = true }

-- `SETTING_DEFS`, less the texts that are shown.
abbrev setting_defs : List SettingDef
setting_defs =
    text "vpn_name"
    ∷ number "session_timeout"
    ∷ number "keepalive_interval"
    ∷ text "webauthn_rp_id"
    ∷ text "webauthn_rp_name"
    ∷ text "webauthn_origin"
    ∷ record { key = "push_auth_enabled"; type = "text"; secret = false }
    ∷ password "push_auth_api_key"
    ∷ flag "allow_personal_import"
    ∷ []

abbrev secret_in : List SettingDef → String → Bool
secret_in [] key = false
secret_in (d ∷ ds) key = if d.key == key then d.secret else secret_in ds key

unfoldable pub is_secret : String → Bool
is_secret key = secret_in setting_defs key

-- Whether the value of a setting is sent.
unfoldable pub is_sent : (key value : String) → Bool
is_sent key value = not (is_secret key) || (not (value == "") && not (value == "__configured__"))

-- `Object.fromEntries(Object.entries(d).filter(f))`
abbrev filter_entries : (String → String → Bool) → Dict String → Dict String
filter_entries f [] = []
filter_entries f ((key, value) ∷ d) =
    let rest = filter_entries f d in if f key value then (key, value) ∷ rest else rest

unfoldable pub payload : Dict String → Dict String
payload d = filter_entries is_sent d

pub record Form : Type 0 where
  pub settings : Dict String
  pub saved : Bool
  pub busy : Bool
  pub error : String

abbrev change : (key value : String) → Form → Form
change key value f = record f { settings = insert key value f.settings }

-- What the field of a setting shows.
abbrev shown : SettingDef → Dict String → String
shown d settings =
    if d.type == "bool"
    then if or_else (lookup d.key settings) "" == "false" then "false" else "true"
    else or_else (lookup d.key settings) ""

abbrev pub start : Form → Form
start f = record f { busy = true; error = "" }

abbrev accepted : Form → Form
accepted f = record f { saved = true }

abbrev refused : Thrown → Form → Form
refused e f = record f { error = message_or "Failed" e }

abbrev stop : Form → Form
stop f = record f { busy = false }

module _ {W : Type 0} (update_settings : Dict String → Async (Form × W) (Unit {0})) where
  -- `submit`, of the form as it was when it was drawn. Two seconds later `saved` is false again.
  abbrev submit : Dict String → Async (Form × W) (Unit {0})
  submit settings = do
    set start
    catch (do update_settings (payload settings); set accepted) (λ e. set (refused e))
    set stop

-- An object has a key once.
abbrev IsObject : Dict String → Type 0
IsObject [] = Unit
IsObject ((k, _) ∷ d) = (lookup k d ≡ none) × IsObject d

-- The value of a key, where it passes.
abbrev if_passes : (String → String → Bool) → String → Option String → Option String
if_passes f key none = none
if_passes f key (some value) = if f key value then some value else none

module _ (f : String → String → Bool) where
  lookup-filter_entries_absent :
      (k : String) (d : Dict String) → lookup k d ≡ none → lookup k (filter_entries f d) ≡ none
  unfolding lookup
  lookup-filter_entries_absent k [] h = h
  lookup-filter_entries_absent k ((j, v) ∷ d) h = elim (Bool-cases (j == k)) [
    | inl e ↦ ground (arith, e, h)
    | inr e ↦ ground (arith, e, h, lookup-filter_entries_absent k d)
  ]

  lookup-filter_entries :
      (k : String) (d : Dict String)
      → IsObject d
      → lookup k (filter_entries f d) ≡ if_passes f k (lookup k d)
  unfolding lookup
  lookup-filter_entries k [] o = refl
  lookup-filter_entries k ((j, v) ∷ d) (once, o) = elim (Bool-cases (j == k)) [
    | inl e ↦
        let s = (eq_iff j k).0 e in
        ground (
          arith,
          e,
          ap (λ x. f x v) s,
          lookup-filter_entries_absent k d (ap (λ x. lookup x d) (sym s) ∙ once),
        )
    | inr e ↦ ground (arith, e, lookup-filter_entries k d o)
  ]

-- A setting that is not secret does not decide about another key.
passed_by :
    (a key x : String) (rest : Bool)
    → (a == x) ≡ false
    → rest ≡ (key == x)
    → (if a == key then false else rest) ≡ (key == x)
passed_by a key x rest h r = elim (Bool-cases (a == key)) [
  | inl e ↦ rw e (sym (ap (λ k. k == x) (sym ((eq_iff a key).0 e)) ∙ h))
  | inr e ↦ rw e r
]

last_secret :
    (a key x : String)
    → (a == x) ≡ false
    → (if x == key then true else (if a == key then false else false)) ≡ (key == x)
last_secret a key x h = ground (arith, eq_iff x key, eq_iff key x)

-- The key of the push service is the only secret.
is_secret_lem : (key : String) → is_secret key ≡ (key == "push_auth_api_key")
unfolding is_secret
is_secret_lem key =
    let x : String = "push_auth_api_key" in
    passed_by "vpn_name" key x _ refl (
      passed_by "session_timeout" key x _ refl (
        passed_by "keepalive_interval" key x _ refl (
          passed_by "webauthn_rp_id" key x _ refl (
            passed_by "webauthn_rp_name" key x _ refl (
              passed_by "webauthn_origin" key x _ refl (
                passed_by "push_auth_enabled" key x _ refl
                  (last_secret "allow_personal_import" key x refl)))))))

-- The value of the secret, where one was typed: neither nothing nor the mark of the server.
abbrev pub typed : Option String → Option String
typed none = none
typed (some value) = if value == "" || value == "__configured__" then none else some value

passes-is_sent :
    (k : String) (o : Option String)
    → if_passes is_sent k o ≡ (if k == "push_auth_api_key" then typed o else o)
unfolding is_sent
passes-is_sent k none = ground arith
passes-is_sent k (some v) = ground (arith, is_secret_lem k)

-- Saving the settings, which have each key once, sends every setting as it stands in the form, but
-- the key of the push service only if its field is neither empty nor holds the mark the server gave
-- for "configured"; nothing else is sent.
pub lookup-payload :
    (k : String) (d : Dict String)
    → IsObject d
    → lookup k (payload d) ≡ (if k == "push_auth_api_key" then typed (lookup k d) else lookup k d)
unfolding payload
lookup-payload k d o = lookup-filter_entries is_sent k d o ∙ passes-is_sent k (lookup k d)
