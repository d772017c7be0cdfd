-- ===== src/Desktop/Main/Connect/Rounds.antt =====
-- The rounds of the loop that waits for an approval, the ways in which it stops, and what each does
-- to the state.
use pro_identity_access.Base.{ℕ, suc, ◌<◌, String, Bool, true, false, ◌||◌, ◌≡◌, refl, ◌==◌}
use pro_identity_access.Async.{Async, Thrown, Outcome, ok, threw, ◌>>=◌}
use pro_identity_access.Desktop.Types.{ServerInfo}
use pro_identity_access.Desktop.Main.State.{State}
use pro_identity_access.Desktop.Main.Connect.{
  ConnectApi, is_cancelled, set_status, finish, react, wait,
}

module _ {W : Type 0} (api : ConnectApi W) (srv : ServerInfo) (run : ℕ) (request_id : String) where
  -- Is the run cancelled in this state?
  abbrev pub gone : State W → Bool
  gone (m, (v, w)) = is_cancelled run v

  abbrev pub with_status : String → State W → State W
  with_status status (m, (v, w)) = (m, (set_status status v, w))

  abbrev pub is_refusal : String → Bool
  is_refusal status = status == "denied" || status == "expired"

  -- One round to its end: the wait and the poll return, and the run is cancelled at none of the
  -- three times at which it is asked.
  pub record Round (s : State W) (status : String) (t : State W) : Type 0 where
    pub slept : State W
    pub open_before : gone s ≡ false
    pub sleeps : api.delay s ≡ (ok tt, slept)
    pub open_asleep : gone slept ≡ false
    pub polls : api.poll_push_auth request_id slept ≡ (ok status, t)
    pub open_after : gone t ≡ false

  -- The rounds that leave the request open, with the attempts that are left before and after.
  pub data Waits : ℕ → State W → ℕ → State W → Type 0 where
    here : (n : ℕ) (s : State W) → Waits n s n s
    next :
        {n m : ℕ} {s t u : State W} (status : String)
        → Round s status t
        → (status == "approved") ≡ false
        → is_refusal status ≡ false
        → Waits n (with_status status t) m u
        → Waits (suc n) s m u

  -- How the loop stops, with `n` attempts left in the state `t`, and what it then returns.
  pub data Stops (n : ℕ) (t : State W) (r : Outcome (Unit {0}) × State W) : Type 0 where
    out_of_attempts : n ≡ 0 → r ≡ (ok tt, with_status "expired" t) → Stops n t r
    cancelled : 0 < n → gone t ≡ true → r ≡ (ok tt, t) → Stops n t r
    cancelled_asleep :
        (u : State W)
        → 0 < n
        → gone t ≡ false
        → api.delay t ≡ (ok tt, u)
        → gone u ≡ true
        → r ≡ (ok tt, u)
        → Stops n t r
    cancelled_polling :
        (u x : State W) (status : String)
        → 0 < n
        → gone t ≡ false
        → api.delay t ≡ (ok tt, u)
        → gone u ≡ false
        → api.poll_push_auth request_id u ≡ (ok status, x)
        → gone x ≡ true
        → r ≡ (ok tt, x)
        → Stops n t r
    delay_failed :
        (e : Thrown) (u : State W)
        → 0 < n
        → gone t ≡ false
        → api.delay t ≡ (threw e, u)
        → r ≡ (threw e, u)
        → Stops n t r
    poll_failed :
        (e : Thrown) (u x : State W)
        → 0 < n
        → gone t ≡ false
        → api.delay t ≡ (ok tt, u)
        → gone u ≡ false
        → api.poll_push_auth request_id u ≡ (threw e, x)
        → r ≡ (threw e, x)
        → Stops n t r
    approved :
        (u : State W)
        → 0 < n
        → Round t "approved" u
        → r ≡ finish api srv request_id (with_status "approved" u)
        → Stops n t r
    rejected :
        (u : State W) (status : String)
        → 0 < n
        → Round t status u
        → is_refusal status ≡ true
        → r ≡ (ok tt, with_status status u)
        → Stops n t r

  pub wait-cancelled :
      (a : ℕ) (s : State W) → gone s ≡ true → wait api srv run request_id (suc a) s ≡ (ok tt, s)
  unfolding wait ◌>>=◌
  wait-cancelled a s h = rw h refl

  pub wait-asleep :
      (a : ℕ) (s u : State W)
      → gone s ≡ false
      → api.delay s ≡ (ok tt, u)
      → gone u ≡ true
      → wait api srv run request_id (suc a) s ≡ (ok tt, u)
  unfolding wait ◌>>=◌
  wait-asleep a s u h d g = rw (h, d, g) refl

  pub wait-polling :
      (a : ℕ) (s u x : State W) (status : String)
      → gone s ≡ false
      → api.delay s ≡ (ok tt, u)
      → gone u ≡ false
      → api.poll_push_auth request_id u ≡ (ok status, x)
      → gone x ≡ true
      → wait api srv run request_id (suc a) s ≡ (ok tt, x)
  unfolding wait ◌>>=◌
  wait-polling a s u x status h d g q k = rw (h, d, g, q, k) refl

  pub wait-delay_failed :
      (a : ℕ) (s u : State W) (e : Thrown)
      → gone s ≡ false
      → api.delay s ≡ (threw e, u)
      → wait api srv run request_id (suc a) s ≡ (threw e, u)
  unfolding wait ◌>>=◌
  wait-delay_failed a s u e h d = rw (h, d) refl

  pub wait-poll_failed :
      (a : ℕ) (s u x : State W) (e : Thrown)
      → gone s ≡ false
      → api.delay s ≡ (ok tt, u)
      → gone u ≡ false
      → api.poll_push_auth request_id u ≡ (threw e, x)
      → wait api srv run request_id (suc a) s ≡ (threw e, x)
  unfolding wait ◌>>=◌
  wait-poll_failed a s u x e h d g q = rw (h, d, g, q) refl

  -- A whole round hands the answer on.
  pub wait-react :
      (a : ℕ) (s t : State W) (status : String)
      → Round s status t
      → wait api srv run request_id (suc a) s
        ≡ react api srv request_id status (wait api srv run request_id a) t
  unfolding wait ◌>>=◌
  wait-react a s t status r =
      rw (r.open_before, r.sleeps, r.open_asleep, r.polls, r.open_after) refl

  pub react-approved :
      (status : String) (more : Async (State W) (Unit {0})) (t : State W)
      → (status == "approved") ≡ true
      → react api srv request_id status more t ≡ finish api srv request_id (with_status status t)
  unfolding react ◌>>=◌
  react-approved status more t h = rw h refl

  pub react-refused :
      (status : String) (more : Async (State W) (Unit {0})) (t : State W)
      → (status == "approved") ≡ false
      → is_refusal status ≡ true
      → react api srv request_id status more t ≡ (ok tt, with_status status t)
  unfolding react ◌>>=◌
  react-refused status more t h k = rw (h, k) refl

  pub react-open :
      (status : String) (more : Async (State W) (Unit {0})) (t : State W)
      → (status == "approved") ≡ false
      → is_refusal status ≡ false
      → react api srv request_id status more t ≡ more (with_status status t)
  unfolding react ◌>>=◌
  react-open status more t h k = rw (h, k) refl
