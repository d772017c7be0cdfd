-- ===== src/Desktop/I18n.antt =====
-- client/frontend/src/i18n/index.ts: the language of the user interface, plural forms and
-- placeholders. The dictionaries are a parameter; texts are matched by code points.
pub mod Language
pub mod Texts
use Prim.Native.Char.{Char, code}
use Prim.Native.String
use Prim.Native.String.{[], ◌∷◌}
use pro_identity_access.Base
use pro_identity_access.Base.{
  ℕ, ◌%◌, String, Bool, true, false, not, ◌&&◌, ◌||◌, Option, none, some, List, Dict, lookup, ◌==◌,
  leb, nat_eq, or_else, truthy, has, if◌then◌else◌,
}

pub data Lang : Type 0 where
  en sk cs pl hu de it es : Lang

-- A key of `LANG_NAMES`, in menu order.
abbrev pub lang_code : Lang → String
lang_code en = "en"
lang_code sk = "sk"
lang_code cs = "cs"
lang_code pl = "pl"
lang_code hu = "hu"
lang_code de = "de"
lang_code it = "it"
lang_code es = "es"

-- The table of `normalizeLang`; any other tag is English.
unfoldable lang_of_primary : String → Lang
lang_of_primary p =
    if p == "sk"
    then sk
    else if p == "cs" || p == "cz"
    then cs
    else if p == "pl"
    then pl
    else if p == "hu"
    then hu
    else if p == "de"
    then de
    else if p == "it"
    then it
    else if p == "es" || p == "ca" || p == "gl"
    then es
    else en

-- `[-_.@]`
abbrev is_separator : Char → Bool
is_separator c =
    nat_eq (code c) b'-' || nat_eq (code c) b'_' || nat_eq (code c) b'.' || nat_eq (code c) b'@'

-- `s.split(/[-_.@]/)[0]`
unfoldable primary : String → String
primary [] = []
primary (c ∷ s) = let rest = primary s in if is_separator c then [] else c ∷ rest

-- JavaScript's `trim` and `toLowerCase`, one after the other
pub record TextOps : Type 0 where
  pub trim_lower : String → String

unfoldable pub normalize_lang : TextOps → Option String → Lang
unfolding lang_of_primary primary
normalize_lang ops tag = lang_of_primary (primary (ops.trim_lower (or_else tag "")))

pub data PluralCategory : Type 0 where
  one few other : PluralCategory

abbrev is_slavic : Lang → Bool
is_slavic sk = true
is_slavic cs = true
is_slavic _ = false

abbrev is_polish : Lang → Bool
is_polish pl = true
is_polish _ = false

-- A count is a whole number here, as every call of `tp` gives one; a sign makes no difference.
unfoldable pub plural_category : Lang → ℕ → PluralCategory
plural_category lang n =
    if is_slavic lang
    then (if nat_eq n 1 then one else if leb 2 n && leb n 4 then few else other)
    else if is_polish lang
    then (if nat_eq n 1
        then one
        else if leb 2 (n % 10) && leb (n % 10) 4 && not (leb 12 (n % 100) && leb (n % 100) 14)
        then few
        else other)
    else (if nat_eq n 1 then one else other)

-- An entry of a dictionary: a text, or plural forms, of which `few` may be missing.
pub data Entry : Type 0 where
  text : String → Entry
  plural : (one : String) (few : Option String) (other : String) → Entry

pub record Dictionaries : Type 0 where
  pub entry : Lang → (key : String) → Option Entry
  pub english : (key : String) → Entry

-- `DICTS[getLang()][key] ?? en[key]`
abbrev lookup_key : Dictionaries → Lang → String → Entry
lookup_key d lang key = or_else (d.entry lang key) (d.english key)

-- `c === s` for a text `s` of one character
abbrev pub is_char : Char → String → Bool
is_char c s = c ∷ [] == s

-- `\w`
unfoldable pub is_word : Char → Bool
is_word c =
    (leb b'a' (code c) && leb (code c) b'z')
    || (leb b'A' (code c) && leb (code c) b'Z')
    || (leb b'0' (code c) && leb (code c) b'9')
    || nat_eq (code c) b'_'

-- The word at the beginning of a text, if it is closed by "}": `(\w+)\}`, with what follows it.
unfoldable pub word_then_brace : String → String → Option (String × String)
word_then_brace acc [] = none
word_then_brace acc (c ∷ s) =
    let more = word_then_brace (String.◌++◌ acc (c ∷ [])) s in
    if is_word c then more else if is_char c "}" && truthy acc then some (acc, s) else none

-- The replacement for one placeholder: its parameter, or the placeholder as it stands.
abbrev pub filled : Dict String → String → String
filled params k = or_else (lookup k params) (String.◌++◌ "{" (String.◌++◌ k "}"))

-- `s.replace(/\{(\w+)\}/g, …)`; the fuel is the number of characters, each round takes one at least.
unfoldable pub replace_all : ℕ → Dict String → String → String
replace_all ℕ.zero params s = s
replace_all (ℕ.suc fuel) params [] = []
replace_all (ℕ.suc fuel) params (c ∷ s) =
    let plain = c ∷ replace_all fuel params s in
    if is_char c "{"
    then elim (word_then_brace [] s) [
      | none ↦ plain
      | some (k, rest) ↦ String.◌++◌ (filled params k) (replace_all fuel params rest)
    ]
    else plain

abbrev pub size : String → ℕ
size [] = 0
size (_ ∷ s) = ℕ.suc (size s)

unfoldable pub interpolate : String → Dict String → String
unfolding replace_all word_then_brace is_word lookup
interpolate s params = replace_all (size s) params s

abbrev plain_text : Entry → String
plain_text (text s) = s
plain_text (plural _ _ c) = c

abbrev form : PluralCategory → Entry → String
form _ (text s) = s
form one (plural a b c) = a
form few (plural a b c) = or_else b c
form other (plural a b c) = c

unfoldable pub t : Dictionaries → Lang → String → Dict String → String
t d lang key params = interpolate (plain_text (lookup_key d lang key)) params

-- `params` already holds the count as text, under "count" unless the caller gives another.
abbrev tp : Dictionaries → Lang → String → ℕ → Dict String → String
tp d lang key count params =
    interpolate (form (plural_category lang count) (lookup_key d lang key)) params
