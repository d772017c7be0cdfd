-- ===== src/Async/Keeps.antt =====
-- What an asynchronous action keeps or establishes, whichever way it ends: one rule for each way of
-- building an action.
use pro_identity_access.Base.{Bool, true, false, ◌≡◌, refl, if◌then◌else◌}
use pro_identity_access.Async.{
  Async, Thrown, Outcome, ok, threw, pure, throw, catch, settle, continue, both, set, get, ◌>>=◌,
}

-- `m` leads from states in `P` to states in `Q`, whether it returns or throws.
pub record Leads {ℓ} {S A : Type ℓ} (P Q : S → Type ℓ) (m : Async S A) : Type ℓ where
  pub at : (s : S) → P s → Q (m s).1

abbrev pub Keeps {ℓ} : {S A : Type ℓ} → (S → Type ℓ) → Async S A → Type ℓ
Keeps P m = Leads P P m

module _ {ℓ} {S A : Type ℓ} {P Q : S → Type ℓ} where
  settle-Leads :
      (r : Outcome A) (handler : Thrown → Async S A) (s : S)
      → ((a : A) → r ≡ ok a → Q s)
      → ((e : Thrown) → Leads P Q (handler e))
      → P s
      → Q (settle r handler s).1
  settle-Leads (ok a) handler s returned h p = returned a refl
  settle-Leads (threw e) handler s returned h p = (h e).at s p

module _ {ℓ} {S A : Type ℓ} {P : S → Type ℓ} where
  pub Keeps-pure : (a : A) → Keeps P (pure {S = S} a)
  unfolding pure
  Keeps-pure a = record { at = λ s h. h }

  pub Keeps-throw : (e : Thrown) → Keeps P (throw {S = S} {A = A} e)
  unfolding throw
  Keeps-throw e = record { at = λ s h. h }

  pub Keeps-catch :
      (m : Async S A) (handler : Thrown → Async S A)
      → Keeps P m
      → ((e : Thrown) → Keeps P (handler e))
      → Keeps P (catch m handler)
  unfolding catch
  Keeps-catch m handler h k = record {
    at = λ s p. let (r, s') = m s in settle-Leads r handler s' (λ _ _. h.at s p) k (h.at s p);
  }

  pub Keeps-if : (b : Bool) (m n : Async S A) → Keeps P m → Keeps P n → Keeps P (if b then m else n)
  Keeps-if true m n h k = h
  Keeps-if false m n h k = k

module _ {ℓ} {S A B : Type ℓ} {P : S → Type ℓ} where
  continue-Keeps :
      (r : Outcome A) (f : A → Async S B) → ((a : A) → Keeps P (f a)) → Keeps P (continue r f)
  continue-Keeps (ok a) f h = h a
  continue-Keeps (threw e) f h = record { at = λ s p. p }

  pub Keeps-bind :
      (m : Async S A) (f : A → Async S B)
      → Keeps P m
      → ((a : A) → Keeps P (f a))
      → Keeps P (m >>= f)
  unfolding ◌>>=◌
  Keeps-bind m f h k = record {
    at = λ s p. let (r, s') = m s in (continue-Keeps r f k).at s' (h.at s p);
  }

  pub Keeps-both :
      (b : Bool) (m : Async S A) (n : Async S B) → Keeps P m → Keeps P n → Keeps P (both b m n)
  unfolding both
  Keeps-both b m n h k = record { at = λ s p. k.at (m s).1 (h.at s p) }

-- `P` of the store, whatever the rest of the program's state is.
pub record On {M W : Type 0} (P : M → Type 0) (s : M × W) : Type 0 where
  pub holds : P s.0

module _ {M W : Type 0} {P : M → Type 0} where
  pub Keeps-set : (f : M → M) → ((m : M) → P m → P (f m)) → Keeps (On {W = W} P) (set f)
  unfolding set
  Keeps-set f h = record { at = λ s p. record { holds = h s.0 p.holds } }

  pub Keeps-get : Keeps (On {W = W} P) get
  unfolding get
  Keeps-get = record { at = λ s h. h }

pub ruleset keeps_rules =
    (Keeps-pure, Keeps-throw, Keeps-catch, Keeps-if, Keeps-bind, Keeps-both, Keeps-set, Keeps-get)
