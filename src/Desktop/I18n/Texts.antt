-- ===== src/Desktop/I18n/Texts.antt =====
-- Placeholders: what `interpolate` replaces, and what it leaves as it stands.
use Prim.Native.Char.{Char}
use Prim.Native.String
use Prim.Native.String.{[], ◌∷◌}
use text.Mathlib.TextLemmas.{nil-append, cons-append, append_assoc, append-nil}
use pro_identity_access.Base.{
  ℕ, zero, suc, ◌≤◌, ◌<◌, String, true, false, ◌&&◌, ◌≡◌, refl, ap, ◌∙◌, eq_iff, inl, inr, Option,
  none, some, Dict, arith, truthy, Bool-cases, Option-cases,
}
use pro_identity_access.Desktop.I18n.{
  is_word, word_then_brace, replace_all, interpolate, size, filled, is_char,
}

infixr 66 ◌⧺◌
abbrev ◌⧺◌ : String → String → String
a ⧺ b = String.◌++◌ a b

push-append : (acc : String) (c : Char) (s : String) → acc ⧺ c ∷ s ≡ (acc ⧺ c ∷ []) ⧺ s
push-append acc c s = rw (append_assoc, cons-append, nil-append)

-- What was read of a placeholder stands in the text.
word_then_brace_sound :
    (acc s k rest : String)
    → word_then_brace acc s ≡ some (k, rest)
    → (acc ⧺ s ≡ k ⧺ "}" ⧺ rest) × (size rest < size s)
unfolding word_then_brace
word_then_brace_sound acc [] k rest h = cc
word_then_brace_sound acc (c ∷ s) k rest h = elim (Bool-cases (is_word c)) [
  | inl w ↦
      let (same, less) = word_then_brace_sound (acc ⧺ c ∷ []) s k rest (rw w at h) in
      (push-append acc c s ∙ same, omega arith)
  | inr w ↦ elim (Bool-cases (is_char c "}" && truthy acc)) [
    | inl e ↦
        let found : ◌≡◌ {A = Option (String × String)} (some (acc, s)) (some (k, rest)) =
          rw (w, e) at h in
        let brace : c ∷ [] ≡ "}" = (eq_iff (c ∷ []) "}").0 (ground arith) in
        let k_is : acc ≡ k = cc in
        let rest_is : s ≡ rest = cc in
        (rw (push-append acc c s, brace, append_assoc, k_is, rest_is), rw (← rest_is) (omega arith))
    | inr e ↦
        let none_is : ◌≡◌ {A = Option (String × String)} none (some (k, rest)) = rw (w, e) at h in
        cc
  ]
]

-- Fuel that is at least the length of the text makes no difference.
replace_all-fuel :
    (n m : ℕ) (params : Dict String) (s : String)
    → size s ≤ n
    → size s ≤ m
    → replace_all n params s ≡ replace_all m params s
unfolding replace_all
replace_all-fuel zero zero params s h k = refl
replace_all-fuel zero (suc m) params [] h k = refl
replace_all-fuel zero (suc m) params (c ∷ s) h k = absurd (omega arith)
replace_all-fuel (suc n) zero params [] h k = refl
replace_all-fuel (suc n) zero params (c ∷ s) h k = absurd (omega arith)
replace_all-fuel (suc n) (suc m) params [] h k = refl
replace_all-fuel (suc n) (suc m) params (c ∷ s) h k = elim (Bool-cases (is_char c "{")) [
  | inl e ↦ elim (Option-cases (word_then_brace [] s)) [
    | inl missing ↦ rw (e, missing, replace_all-fuel n m params s (omega arith) (omega arith))
    | inr ((key, rest), found) ↦
        let less = (word_then_brace_sound [] s key rest found).1 in
        rw (e, found, replace_all-fuel n m params rest (omega arith) (omega arith))
  ]
  | inr e ↦ rw (e, replace_all-fuel n m params s (omega arith) (omega arith))
]

abbrev NoBrace : String → Type 0
NoBrace [] = Unit
NoBrace (c ∷ s) = (is_char c "{" ≡ false) × NoBrace s

abbrev IsWord : String → Type 0
IsWord [] = Unit
IsWord (c ∷ s) = (is_word c ≡ true) × IsWord s

interpolate-append :
    (a s : String) (params : Dict String)
    → NoBrace a
    → interpolate (a ⧺ s) params ≡ a ⧺ interpolate s params
unfolding interpolate
interpolate-append [] s params _ = rw (nil-append, nil-append)
interpolate-append (c ∷ a) s params (h, hs) =
    rw (cons-append, cons-append, h) (rw (interpolate-append a s params hs))

closing : (acc b : String) → truthy acc ≡ true → word_then_brace acc ("}" ⧺ b) ≡ some (acc, b)
unfolding word_then_brace is_word
closing acc b t = rw (cons-append "}" [] b, nil-append, t)

word_then_brace-word :
    (acc k b : String)
    → IsWord k
    → truthy (acc ⧺ k) ≡ true
    → word_then_brace acc (k ⧺ "}" ⧺ b) ≡ some (acc ⧺ k, b)
unfolding word_then_brace is_word
word_then_brace-word acc [] b _ t =
    let t' : truthy acc ≡ true = rw append-nil at t in
    rw (append-nil, nil-append) (closing acc b t')
word_then_brace-word acc (c ∷ k) b (w, ws) t =
    rw (cons-append, w, push-append acc c k)
      (word_then_brace-word (acc ⧺ c ∷ []) k b ws (rw (← push-append acc c k) t))

opening :
    (s k b : String) (params : Dict String)
    → word_then_brace [] s ≡ some (k, b)
    → interpolate ("{" ⧺ s) params ≡ filled params k ⧺ interpolate b params
unfolding interpolate
opening s k b params found =
    let less = (word_then_brace_sound [] s k b found).1 in
    let fuel = replace_all-fuel (size s) (size b) params b (omega arith) (omega arith) in
    rw (cons-append "{" [] s, nil-append, found, nil-append, fuel)

-- The first placeholder of a text becomes its parameter, or stays as it stands if there is none, and
-- what follows it is treated in the same way; the text before it is unchanged.
interpolate_first :
    (a k b : String) (params : Dict String)
    → NoBrace a
    → IsWord k
    → truthy k ≡ true
    → interpolate (a ⧺ "{" ⧺ k ⧺ "}" ⧺ b) params ≡ a ⧺ filled params k ⧺ interpolate b params
interpolate_first a k b params plain word named =
    let found = word_then_brace-word [] k b word (rw (nil-append k) named) in
    interpolate-append a ("{" ⧺ k ⧺ "}" ⧺ b) params plain
    ∙ ap (λ s. a ⧺ s) (opening (k ⧺ "}" ⧺ b) k b params (rw nil-append at found))

-- A text without a placeholder is unchanged.
interpolate_plain : (s : String) (params : Dict String) → NoBrace s → interpolate s params ≡ s
unfolding interpolate
interpolate_plain [] params _ = refl
interpolate_plain (c ∷ s) params (h, hs) = rw (h, interpolate_plain s params hs)
