-- ===== src/Desktop/Traffic.antt =====
-- client/frontend/src/stores/useTrafficHistory.ts: the throughput of the last minute, per tunnel.
-- Byte counts and times (in milliseconds) are natural numbers; a rate is a JavaScript number, a
-- parameter with the one fact about `Math.max` that the code relies on.
pub mod Window
use pro_identity_access.Base.{
  ℕ, ◌+◌, ◌-◌, String, List, [], ◌∷◌, ◌++◌, Option, none, some, Dict, lookup, insert, without,
  length, drop, leb, or_else, if◌then◌else◌,
}

-- The floating-point operations that the store uses.
pub record Number : Type 1 where
  pub Float : Type 0
  pub from : ℕ → Float
  pub sub : Float → Float → Float
  pub div : Float → Float → Float
  pub max : Float → Float → Float
  pub Le : Float → Float → Type 0
  pub le_max : (a b : Float) → Le a (max a b)

module _ (N : Number) where
  open N use {Float, from, sub, div, max}

  pub record Sample : Type 0 where
    pub ts : ℕ
    pub rx_bps : Float
    pub tx_bps : Float

  pub record Reading : Type 0 where
    pub ts : ℕ
    pub rx : ℕ
    pub tx : ℕ

  pub record TrafficHistory : Type 0 where
    pub history : Dict (List Sample)
    pub last : Dict Reading

  abbrev pub max_samples : ℕ
  max_samples = 60

  unfoldable pub initial : TrafficHistory
  initial = record { history = []; last = [] }

  -- The time since the reading before, in seconds and never zero.
  unfoldable seconds_since : Reading → ℕ → Float
  seconds_since prev ts = max (from 1) (div (sub (from ts) (from prev.ts)) (from 1000))

  unfoldable pub sample : Reading → ℕ → ℕ → ℕ → Sample
  unfolding seconds_since
  sample prev ts rx tx = record {
    ts = ts;
    rx_bps = max (from 0) (div (sub (from rx) (from prev.rx)) (seconds_since prev ts));
    tx_bps = max (from 0) (div (sub (from tx) (from prev.tx)) (seconds_since prev ts));
  }

  -- The list with one more sample, at most `max_samples` long.
  unfoldable pub extend : List Sample → Sample → List Sample
  extend arr x =
      if leb max_samples (length arr)
      then drop (length arr - max_samples + 1) arr ++ x ∷ []
      else arr ++ x ∷ []

  unfoldable pub next_samples : Option Reading → List Sample → ℕ → ℕ → ℕ → List Sample
  next_samples none arr ts rx tx = []
  next_samples (some prev) arr ts rx tx = extend arr (sample prev ts rx tx)

  unfoldable pub push_sample : String → ℕ → ℕ → ℕ → TrafficHistory → TrafficHistory
  unfolding next_samples
  push_sample id ts rx tx s = record {
    history =
        insert id (next_samples (lookup id s.last) (or_else (lookup id s.history) []) ts rx tx)
          s.history;
    last = insert id (record { ts = ts; rx = rx; tx = tx }) s.last;
  }

  unfoldable pub reset : String → TrafficHistory → TrafficHistory
  reset id s = record { history = without id s.history; last = without id s.last }
