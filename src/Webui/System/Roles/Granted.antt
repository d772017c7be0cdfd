-- ===== src/Webui/System/Roles/Granted.antt =====
-- The permissions of a role in its drawer (server/webui/src/pages/System.tsx): when there is
-- something to save.
use pro_identity_access.Base.{
  ℕ, suc, ◌≤◌, String, Bool, true, false, not, ◌≡◌, ◌↔◌, refl, sym, ap, ◌∙◌, inl, inr, List, [],
  ◌∷◌, has, has-append, has-keep, length, nat_eq, ◌==◌, eq_iff, eq_refl, if◌then◌else◌, Bool-cases,
  arith,
}
use pro_identity_access.Webui.System.Roles.{set_of, has_all, is_dirty, toggle}

-- A click on a permission grants it or takes it away, and leaves the others.
has-toggle :
    (key k : String) (perms : List String)
    → has k (toggle key perms) ≡ (if k == key then not (has key perms) else has k perms)
unfolding toggle
has-toggle key k perms = elim (Bool-cases (has key perms)) [
  | inl e ↦ ground (arith, e, has-keep (λ x. not (x == key)) k perms)
  | inr e ↦ ground (arith, e, has-append k perms (key ∷ []))
]

abbrev Unique : List String → Type 0
Unique [] = Unit
Unique (x ∷ xs) = (has x xs ≡ false) × Unique xs

abbrev Within : List String → List String → Type 0
Within a b = (k : String) → has k a ≡ true → has k b ≡ true

-- Without its first `k`.
abbrev drop_first : String → List String → List String
drop_first k [] = []
drop_first k (x ∷ xs) = let rest = drop_first k xs in if k == x then xs else x ∷ rest

has-drop_first :
    (j k : String) (xs : List String) → (j == k) ≡ false → has j (drop_first k xs) ≡ has j xs
has-drop_first j k [] h = refl
has-drop_first j k (x ∷ xs) h = elim (Bool-cases (k == x)) [
  | inl e ↦ ground (arith, e, h, ap (λ i. j == i) ((eq_iff k x).0 e))
  | inr e ↦ ground (arith, e, has-drop_first j k xs h)
]

length-drop_first :
    (k : String) (xs : List String) → has k xs ≡ true → length xs ≡ suc (length (drop_first k xs))
length-drop_first k [] h = cc
length-drop_first k (x ∷ xs) h = elim (Bool-cases (k == x)) [
  | inl e ↦ ground (arith, e)
  | inr e ↦ ground (arith, e, h, length-drop_first k xs)
]

Within-drop_first :
    (x : String) (a b : List String) → has x a ≡ false → Within a b → Within a (drop_first x b)
Within-drop_first x a b once h k m = elim (Bool-cases (k == x)) [
  | inl e ↦ ground (arith, once, m, ap (λ j. has j a) ((eq_iff k x).0 e))
  | inr e ↦ has-drop_first k x b e ∙ h k m
]

length-Within : (a b : List String) → Unique a → Within a b → length a ≤ length b
length-Within [] b u h = omega arith
length-Within (x ∷ a) b (once, u) h =
    let l = length-drop_first x b (h x (ground (arith, eq_refl x))) in
    let m =
      length-Within a (drop_first x b) u
        (Within-drop_first x a b once λ k m. h k (ground (arith, m))) in
    omega arith

has-set_of : (k : String) (xs : List String) → has k (set_of xs) ≡ has k xs
unfolding set_of
has-set_of k [] = refl
has-set_of k (x ∷ xs) = elim (Bool-cases (k == x)) [
  | inl e ↦ ground (arith, has-set_of k xs, e, ap (λ j. has j (set_of xs)) ((eq_iff k x).0 e))
  | inr e ↦ ground (arith, has-set_of k xs, e)
]

set_of-Unique : (xs : List String) → Unique (set_of xs)
unfolding set_of
set_of-Unique [] = tt
set_of-Unique (x ∷ xs) = elim (Bool-cases (has x (set_of xs))) [
  | inl e ↦ rw e (set_of-Unique xs)
  | inr e ↦ rw e (e, set_of-Unique xs)
]

-- Of lists without repetition, one as long as another that is within it holds nothing else.
Within-back :
    (a b : List String)
    → Unique a
    → Within a b
    → length a ≡ length b
    → (k : String) → has k b ≡ true
    → has k a ≡ true
Within-back a b u h l k m = elim (Bool-cases (has k a)) [
  | inl e ↦ e
  | inr e ↦
      let d = length-drop_first k b m in
      let w = length-Within a (drop_first k b) u (Within-drop_first k a b e h) in
      ground (arith, d, w, l)
]

has_all-Within : (a b : List String) → has_all a b ≡ true → Within a b
has_all-Within [] b h k m = cc
has_all-Within (x ∷ a) b h k m = elim (Bool-cases (k == x)) [
  | inl e ↦ ground (arith, h, ap (λ j. has j b) ((eq_iff k x).0 e))
  | inr e ↦ has_all-Within a b (ground (arith, h)) k (ground (arith, m, e))
]

Within-has_all : (a b : List String) → Within a b → has_all a b ≡ true
Within-has_all [] b h = refl
Within-has_all (x ∷ a) b h =
    ground
      (arith, h x (ground (arith, eq_refl x)), Within-has_all a b λ k m. h k (ground (arith, m)))

-- The same members, in any order and however often.
abbrev pub SameSet : List String → List String → Type 0
SameSet a b = (k : String) → has k a ≡ has k b

Within-SameSet : (a b : List String) → SameSet a b → Within (set_of a) (set_of b)
Within-SameSet a b h k m = has-set_of k b ∙ sym (h k) ∙ sym (has-set_of k a) ∙ m

both_true : (b c : Bool) → (b ≡ true → c ≡ true) → (c ≡ true → b ≡ true) → b ≡ c
both_true true c f g = sym (f refl)
both_true false true f g = g refl
both_true false false f g = refl

same_length : (a b : List String) → SameSet a b → length (set_of a) ≡ length (set_of b)
same_length a b h =
    let l = length-Within (set_of a) (set_of b) (set_of-Unique a) (Within-SameSet a b h) in
    let m =
      length-Within (set_of b) (set_of a) (set_of-Unique b) (Within-SameSet b a λ k. sym (h k)) in
    omega arith

clean_parts :
    (m n : ℕ) (b : Bool) → (if nat_eq m n then not b else true) ≡ false → (m ≡ n) × (b ≡ true)
clean_parts m n b h = ground (arith, h)

clean_from : (m n : ℕ) (b : Bool) → m ≡ n → b ≡ true → (if nat_eq m n then not b else true) ≡ false
clean_from m n b e h = ground (arith, e, h)

sets_same :
    (a b : List String)
    → length (set_of a) ≡ length (set_of b)
    → has_all (set_of a) (set_of b) ≡ true
    → SameSet a b
sets_same a b l h k =
    let w = has_all-Within (set_of a) (set_of b) h in
    sym (has-set_of k a)
    ∙ both_true _ _ (w k) (Within-back (set_of a) (set_of b) (set_of-Unique a) w l k)
    ∙ has-set_of k b

-- There is nothing to save exactly when the permissions that are ticked are those of the role, in
-- whatever order they were ticked.
pub is_dirty_lem :
    (permissions perms : List String)
    → (is_dirty permissions perms ≡ false) ↔ SameSet permissions perms
unfolding is_dirty
is_dirty_lem permissions perms = (
  λ h. (let (l, w) = clean_parts _ _ _ h in sets_same permissions perms l w),
  λ h.
      clean_from _ _ _ (same_length permissions perms h)
        (Within-has_all _ _ (Within-SameSet permissions perms h)),
)
