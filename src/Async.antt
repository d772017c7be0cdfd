-- ===== src/Async.antt =====
-- Asynchronous code: `async` functions of the desktop client's stores (client/frontend/src/stores).
-- An action transforms the state `S` and ends with a value or with a thrown value. A call that is
-- awaited is an action too, and one that the reader chooses: whatever other code does to the
-- state before the promise settles is part of what that action does to `S`.
pub mod Keeps
pub mod Returns
use pro_identity_access.Base.{String, Bool, truthy, ◌≡◌, refl, ◌⊎◌, inl, inr, if◌then◌else◌}
use Prim.Native.String

-- What JavaScript code can catch: an `Error`, or (as Wails rejects a promise) a text.
pub data Thrown : Type 0 where
  js_error : (name message : String) → Thrown
  plain : String → Thrown

-- `String(e)`
unfoldable pub string_of : Thrown → String
string_of (js_error name message) =
    if truthy message then String.◌++◌ name (String.◌++◌ ": " message) else name
string_of (plain s) = s

-- `e?.message ?? e`, as a text; also `e instanceof Error ? e.message : String(e)`.
unfoldable pub message_of : Thrown → String
message_of (js_error name message) = message
message_of (plain s) = s

-- `e?.message ?? d`, as it is: a text has no message.
abbrev pub message_or : String → Thrown → String
message_or d (js_error name message) = message
message_or d (plain s) = d

pub data Outcome {ℓ} (A : Type ℓ) : Type ℓ where
  ok : A → Outcome A
  threw : Thrown → Outcome A

-- What holds of a returned value, and what of a thrown one.
abbrev pub Ends {ℓ} : {A : Type ℓ} → Outcome A → (A → Type 0) → (Thrown → Type 0) → Type 0
Ends (ok a) P Q = P a
Ends (threw e) P Q = Q e

-- To split on how an awaited call ended, with the equation.
pub Outcome-cases {ℓ} :
    {A : Type ℓ} (r : Outcome A) → ((a : A) × (r ≡ ok a)) ⊎ ((e : Thrown) × (r ≡ threw e))
Outcome-cases (ok a) = inl (a, refl)
Outcome-cases (threw e) = inr (e, refl)

pub ok-injective {ℓ} : {A : Type ℓ} {a b : A} → ok a ≡ ok b → a ≡ b
ok-injective h = cc

pub threw-injective {ℓ} :
    {A : Type ℓ} {e e' : Thrown} → ◌≡◌ {A = Outcome A} (threw e) (threw e') → e ≡ e'
threw-injective h = cc

abbrev pub Async {ℓ} : Type ℓ → Type ℓ → Type ℓ
Async S A = S → Outcome A × S

module _ {ℓ} {S A : Type ℓ} where
  unfoldable pub pure : A → Async S A
  pure a s = (ok a, s)

  unfoldable pub throw : Thrown → Async S A
  throw e s = (threw e, s)

  abbrev pub settle : Outcome A → (Thrown → Async S A) → Async S A
  settle (ok a) handler s = (ok a, s)
  settle (threw e) handler s = handler e s

  -- `try { m } catch (e) { handler e }`
  unfoldable pub catch : Async S A → (Thrown → Async S A) → Async S A
  catch m handler s = let (r, s') = m s in settle r handler s'

module _ {ℓ} {A B : Type ℓ} where
  abbrev pub both_of : Bool → Outcome A → Outcome B → Outcome (A × B)
  both_of second_first (ok a) (ok b) = ok (a, b)
  both_of second_first (ok a) (threw e) = threw e
  both_of second_first (threw e) (ok b) = threw e
  both_of second_first (threw e) (threw e') = threw (if second_first then e' else e)

module _ {ℓ} {S A B : Type ℓ} where
  -- `Promise.all([m, n])`; if both reject, the promise that settles first gives the reason.
  unfoldable pub both : Bool → Async S A → Async S B → Async S (A × B)
  both second_first m n s =
      let (a, s') = m s in let (b, s'') = n s' in (both_of second_first a b, s'')

-- A store `M` beside `W`, the rest of the program's state: `set(f)` and `get()`.
module _ {M W : Type 0} where
  unfoldable pub set : (M → M) → Async (M × W) (Unit {0})
  set f (s, w) = (ok tt, (f s, w))

  unfoldable pub get : Async (M × W) M
  get (s, w) = (ok s, (s, w))

module _ {ℓ} {S A B : Type ℓ} where
  abbrev pub continue : Outcome A → (A → Async S B) → Async S B
  continue (ok a) f s = f a s
  continue (threw e) f s = (threw e, s)

  infixl 5 ◌>>=◌
  -- Opening this opens the other ways to build an action too.
  unfoldable pub ◌>>=◌ : Async S A → (A → Async S B) → Async S B
  unfolding pure throw catch both set get
  ◌>>=◌ m f s = let (r, s') = m s in continue r f s'

  infixl 5 ◌>>◌
  abbrev pub ◌>>◌ : Async S A → Async S B → Async S B
  m >> n = m >>= λ _. n
