-- ===== src/Async/Returns.antt =====
-- Actions that never throw: one rule for each way of building one.
use pro_identity_access.Base.{Bool, true, false, ◌≡◌, refl, if◌then◌else◌}
use pro_identity_access.Async.{
  Async, Thrown, Outcome, ok, threw, pure, catch, settle, continue, set, get, ◌>>=◌,
}

pub record Returns {ℓ} {S A : Type ℓ} (m : Async S A) : Type ℓ where
  pub at : (s : S) → (a : A) × ((m s).0 ≡ ok a)

module _ {ℓ} {S A : Type ℓ} where
  pub Returns-pure : (a : A) → Returns (pure {S = S} a)
  unfolding pure
  Returns-pure a = record { at = λ s. (a, refl) }

  settle-Returns :
      (r : Outcome A) (handler : Thrown → Async S A) (s : S)
      → ((e : Thrown) → Returns (handler e))
      → (a : A) × ((settle r handler s).0 ≡ ok a)
  settle-Returns (ok a) handler s h = (a, refl)
  settle-Returns (threw e) handler s h = (h e).at s

  -- Only the handler matters.
  pub Returns-catch :
      (m : Async S A) (handler : Thrown → Async S A)
      → ((e : Thrown) → Returns (handler e))
      → Returns (catch m handler)
  unfolding catch
  Returns-catch m handler h = record { at = λ s. settle-Returns (m s).0 handler (m s).1 h }

  pub Returns-if :
      (b : Bool) (m n : Async S A) → Returns m → Returns n → Returns (if b then m else n)
  Returns-if true m n h k = h
  Returns-if false m n h k = k

module _ {ℓ} {S A B : Type ℓ} where
  continue-Returns :
      (r : Outcome A) (f : A → Async S B) (s : S)
      → ((a : A) × (r ≡ ok a))
      → ((a : A) → Returns (f a))
      → (b : B) × ((continue r f s).0 ≡ ok b)
  continue-Returns (ok a) f s h k = (k a).at s
  continue-Returns (threw e) f s (a, h) k = cc

  pub Returns-bind :
      (m : Async S A) (f : A → Async S B)
      → Returns m
      → ((a : A) → Returns (f a))
      → Returns (m >>= f)
  unfolding ◌>>=◌
  Returns-bind m f h k = record { at = λ s. continue-Returns (m s).0 f (m s).1 (h.at s) k }

module _ {M W : Type 0} where
  pub Returns-set : (f : M → M) → Returns (set {W = W} f)
  unfolding set
  Returns-set f = record { at = λ s. (tt, refl) }

  pub Returns-get : Returns (get {M = M} {W = W})
  unfolding get
  Returns-get = record { at = λ s. (s.0, refl) }
