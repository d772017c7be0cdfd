-- ===== src/Base/Ints.antt =====
-- Integers over the native numbers, and the tests of JavaScript on them.
use Prim.Native.Nat.{ℕ, zero, suc, ◌<◌}
use native.Mathlib.Omega.{arith}
use mathlib.Core.Bool.{Bool, false}
use pro_identity_access.Base.Tests.{nat_eq}

-- `negsuc n` is -(n + 1)
pub data ℤ : Type 0 where
  pos : ℕ → ℤ
  negsuc : ℕ → ℤ

abbrev pub int_eq : ℤ → ℤ → Bool
int_eq (pos a) (pos b) = nat_eq a b
int_eq (negsuc a) (negsuc b) = nat_eq a b
int_eq _ _ = false

-- `a || b`: zero is false.
abbrev pub or_int : ℤ → ℤ → ℤ
or_int (pos zero) b = b
or_int (pos (suc a)) b = pos (suc a)
or_int (negsuc a) b = negsuc a

-- 0 ≤ a, 0 < a, and a is not 0.
abbrev pub IsNatural : ℤ → Type 0
IsNatural (pos a) = Unit
IsNatural (negsuc a) = ⊥

abbrev pub IsPositive : ℤ → Type 0
IsPositive (pos a) = 0 < a
IsPositive (negsuc a) = ⊥

abbrev pub IsNonzero : ℤ → Type 0
IsNonzero (pos zero) = ⊥
IsNonzero (pos (suc a)) = Unit
IsNonzero (negsuc a) = Unit

pub or_int-IsNonzero : (a b : ℤ) → IsNonzero b → IsNonzero (or_int a b)
or_int-IsNonzero (pos zero) b h = h
or_int-IsNonzero (pos (suc a)) b h = tt
or_int-IsNonzero (negsuc a) b h = tt

pub or_int-IsPositive : (a b : ℤ) → IsNatural a → IsPositive b → IsPositive (or_int a b)
or_int-IsPositive (pos zero) b n h = h
or_int-IsPositive (pos (suc a)) b n h = omega arith
or_int-IsPositive (negsuc a) b n h = n
