-- ===== src/Webui/History/Numbers.antt =====
-- The page numbers under the list (server/webui/src/pages/ConnectionHistory.tsx).
use pro_identity_access.Base.{
  ℕ, suc, ◌+◌, ◌-◌, ◌<◌, Bool, true, false, ◌&&◌, ◌||◌, ◌≡◌, refl, ap, ◌∙◌, sym, inl, inr, Option,
  none, some, List, [], ◌∷◌, keep, ltb, leb, nat_eq, Bool-cases, arith,
}
use pro_identity_access.Webui.History.{
  has_nat, distinct, place, sort, gaps, spaced, in_range, page_numbers,
}

-- Strictly ascending, from above `n` on.
abbrev Above : ℕ → List ℕ → Type 0
Above n [] = Unit
Above n (x ∷ xs) = (n < x) × Above x xs

abbrev Unique : List ℕ → Type 0
Unique [] = Unit
Unique (x ∷ xs) = (has_nat x xs ≡ false) × Unique xs

-- What may follow the number `q`: the next number, or a gap and a number beyond the next.
abbrev Follows : ℕ → List (Option ℕ) → Type 0
Follows q [] = Unit
Follows q (some p ∷ ps) = (p ≡ suc q) × Follows p ps
Follows q (none ∷ []) = ⊥
Follows q (none ∷ none ∷ ps) = ⊥
Follows q (none ∷ some p ∷ ps) = (suc q < p) × Follows p ps

abbrev pub IsSpaced : List (Option ℕ) → Type 0
IsSpaced [] = Unit
IsSpaced (none ∷ ps) = ⊥
IsSpaced (some p ∷ ps) = Follows p ps

abbrev pub shows : ℕ → List (Option ℕ) → Bool
shows n [] = false
shows n (none ∷ ps) = shows n ps
shows n (some p ∷ ps) = nat_eq n p || shows n ps

nat_eq_sound : (a b : ℕ) → nat_eq a b ≡ true → a ≡ b
nat_eq_sound a b h = ground (arith, h)

nat_eq_refl : (a : ℕ) → nat_eq a a ≡ true
nat_eq_refl a = ground arith

has_nat-keep : (f : ℕ → Bool) (n : ℕ) (xs : List ℕ) → has_nat n (keep f xs) ≡ (f n && has_nat n xs)
has_nat-keep f n [] = ground arith
has_nat-keep f n (x ∷ xs) = elim (Bool-cases (nat_eq n x)) [
  | inl e ↦ ground (arith, has_nat-keep f n xs, ap f (nat_eq_sound n x e))
  | inr e ↦ ground (arith, has_nat-keep f n xs)
]

has_nat-distinct : (n : ℕ) (xs : List ℕ) → has_nat n (distinct xs) ≡ has_nat n xs
has_nat-distinct n [] = refl
has_nat-distinct n (x ∷ xs) = elim (Bool-cases (nat_eq n x)) [
  | inl e ↦
      ground (arith, has_nat-distinct n xs, ap (λ m. has_nat m (distinct xs)) (nat_eq_sound n x e))
  | inr e ↦ ground (arith, has_nat-distinct n xs)
]

distinct-Unique : (xs : List ℕ) → Unique (distinct xs)
distinct-Unique [] = tt
distinct-Unique (x ∷ xs) = elim (Bool-cases (has_nat x (distinct xs))) [
  | inl e ↦ rw e (distinct-Unique xs)
  | inr e ↦ rw e (e, distinct-Unique xs)
]

has_nat-place : (n x : ℕ) (xs : List ℕ) → has_nat n (place x xs) ≡ (nat_eq n x || has_nat n xs)
has_nat-place n x [] = refl
has_nat-place n x (y ∷ ys) = ground (arith, has_nat-place n x ys)

has_nat-sort : (n : ℕ) (xs : List ℕ) → has_nat n (sort xs) ≡ has_nat n xs
has_nat-sort n [] = refl
has_nat-sort n (x ∷ xs) = rw (has_nat-place n x (sort xs), has_nat-sort n xs) refl

place-Above :
    (n x : ℕ) (ys : List ℕ) → n < x → Above n ys → has_nat x ys ≡ false → Above n (place x ys)
place-Above n x [] h a u = (h, tt)
place-Above n x (y ∷ ys) h (b, a) u = elim (Bool-cases (leb x y)) [
  | inl e ↦ rw e (h, (ground arith, a))
  | inr e ↦ rw e (b, place-Above y x ys (ground arith) a (ground arith))
]

sort-Above :
    (n : ℕ) (xs : List ℕ) → Unique xs → ((p : ℕ) → has_nat p xs ≡ true → n < p) → Above n (sort xs)
sort-Above n [] u h = tt
sort-Above n (x ∷ xs) (once, u) h =
    place-Above n x (sort xs) (h x (ground arith)) (sort-Above n xs u λ p e. h p (ground arith))
      (has_nat-sort x xs ∙ once)

far : (p q : ℕ) → ltb 1 (p - q) ≡ true → suc q < p
far p q h = ground (arith, h)

near : (p q : ℕ) → q < p → ltb 1 (p - q) ≡ false → p ≡ suc q
near p q l h = ground (arith, l, h)

gaps-Follows : (q : ℕ) (ps : List ℕ) → Above q ps → Follows q (gaps q ps)
gaps-Follows q [] h = tt
gaps-Follows q (p ∷ ps) (h, a) = elim (Bool-cases (ltb 1 (p - q))) [
  | inl e ↦ rw e (far p q e, gaps-Follows p ps a)
  | inr e ↦ rw e (near p q h e, gaps-Follows p ps a)
]

shows-gaps : (n q : ℕ) (ps : List ℕ) → shows n (gaps q ps) ≡ has_nat n ps
shows-gaps n q [] = refl
shows-gaps n q (p ∷ ps) = ground (arith, shows-gaps n p ps)

spaced-IsSpaced : (n : ℕ) (ps : List ℕ) → Above n ps → IsSpaced (spaced ps)
spaced-IsSpaced n [] h = tt
spaced-IsSpaced n (p ∷ ps) (h, a) = gaps-Follows p ps a

shows-spaced : (n : ℕ) (ps : List ℕ) → shows n (spaced ps) ≡ has_nat n ps
shows-spaced n [] = refl
shows-spaced n (p ∷ ps) = ap (λ b. nat_eq n p || b) (shows-gaps n p ps)

-- The first page, the last, and those beside the current one.
abbrev pub is_near : (here pages n : ℕ) → Bool
is_near here pages n = nat_eq n 1 || nat_eq n pages || (leb here (n + 1) && leb n (here + 1))

abbrev candidates : (here pages : ℕ) → List ℕ
candidates here pages = 1 ∷ pages ∷ (here - 1) ∷ here ∷ (here + 1) ∷ []

has_nat-chosen :
    (n pages : ℕ) (xs : List ℕ)
    → has_nat n (distinct (keep (in_range pages) xs)) ≡ (in_range pages n && has_nat n xs)
has_nat-chosen n pages xs =
    has_nat-distinct n (keep (in_range pages) xs) ∙ has_nat-keep (in_range pages) n xs

in_range_positive : (n pages : ℕ) (b : Bool) → (in_range pages n && b) ≡ true → 0 < n
in_range_positive n pages b h = ground (arith, h)

has_nat-candidates :
    (here pages n : ℕ)
    → (in_range pages n && has_nat n (candidates here pages))
      ≡ (in_range pages n && is_near here pages n)
has_nat-candidates here pages n = ground arith

-- The list of page numbers consists of the first page, the last page and the current page with its
-- neighbours, of those that exist, in ascending order; and between two numbers there is one gap
-- exactly where a number is left out.
pub page_numbers_lem :
    (here pages n : ℕ)
    → IsSpaced (page_numbers here pages)
      × (shows n (page_numbers here pages) ≡ (in_range pages n && is_near here pages n))
unfolding page_numbers
page_numbers_lem here pages n =
    let cs = candidates here pages in
    let xs = distinct (keep (in_range pages) cs) in
    (
      spaced-IsSpaced 0 (sort xs) (
          sort-Above 0 xs (distinct-Unique (keep (in_range pages) cs))
            λ p e. in_range_positive p pages (has_nat p cs) (sym (has_nat-chosen p pages cs) ∙ e)),
      shows-spaced n (sort xs)
          ∙ has_nat-sort n xs
          ∙ has_nat-chosen n pages cs
          ∙ has_nat-candidates here pages n,
    )
