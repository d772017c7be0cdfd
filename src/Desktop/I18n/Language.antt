-- ===== src/Desktop/I18n/Language.antt =====
-- Languages and plural forms.
use Prim.Native.String
use Prim.Native.String.{[], ◌∷◌}
use text.Mathlib.TextLemmas.{cons-append, nil-append}
use pro_identity_access.Base.{ℕ, ◌+◌, ◌≤◌, String, ◌≡◌, some, arith, leb, if◌then◌else◌}
use pro_identity_access.Desktop.I18n.{
  Lang, en, sk, pl, lang_code, normalize_lang, TextOps, other, plural_category,
}

-- A locale tag that begins, in small letters, with the code of a supported language and "-" is that
-- language, whatever region or script follows.
normalize_lang-lang_code :
    (ops : TextOps) (tag rest : String) (l : Lang)
    → ops.trim_lower tag ≡ String.◌++◌ (lang_code l) (String.◌++◌ "-" rest)
    → normalize_lang ops (some tag) ≡ l
unfolding normalize_lang
normalize_lang-lang_code ops tag rest en h =
    rw (h, cons-append, cons-append, nil-append, cons-append)
normalize_lang-lang_code ops tag rest _ h =
    rw (h, cons-append, cons-append, nil-append, cons-append)

-- From 2 on, the Polish form depends on the last two digits alone.
plural_category_pl : (n : ℕ) → 2 ≤ n → plural_category pl (n + 100) ≡ plural_category pl n
unfolding plural_category
plural_category_pl n h = ground arith

-- The Slovak form is that of Polish up to 21, and "other" from 22 on.
plural_category_sk :
    (n : ℕ) → plural_category sk n ≡ (if leb n 21 then plural_category pl n else other)
unfolding plural_category
plural_category_sk n = ground arith
