-- ===== src/Desktop/Traffic/Window.antt =====
-- The history of a tunnel is a window of at most 60 samples with no negative rate.
use pro_identity_access.Base.{
  ℕ, ◌+◌, ◌-◌, ◌≤◌, min, String, List, [], ◌∷◌, Option, none, some, ◌≡◌, refl, arith, lookup,
  lookup-insert, lookup-without, length, drop, length-append, length-drop, All, All-append,
  All-drop, inl, inr, eq_refl, is_some, or_else, leb, Bool-cases,
}
use pro_identity_access.Desktop.Traffic.{
  Number, Sample, Reading, TrafficHistory, max_samples, initial, sample, extend, next_samples,
  push_sample, reset,
}

module _ (N : Number) where
  open N use {Le, from, le_max}

  abbrev IsRate : Sample N → Type 0
  IsRate x = Le (from 0) x.rx_bps × Le (from 0) x.tx_bps

  abbrev IsSeries : List (Sample N) → Type 0
  IsSeries arr = (length arr ≤ 60) × All IsRate arr

  pub record IsWindow (s : TrafficHistory N) : Type 0 where
    pub series : (k : String) (arr : List (Sample N)) → lookup k s.history ≡ some arr → IsSeries arr
    pub paired : (k : String) → is_some (lookup k s.history) ≡ is_some (lookup k s.last)

  pub length-extend :
      (arr : List (Sample N)) (x : Sample N)
      → length arr ≤ 60
      → length (extend N arr x) ≡ min 60 (length arr + 1)
  unfolding extend
  length-extend arr x h = ground (
    arith,
    length-append (drop (length arr - 60 + 1) arr) (x ∷ []),
    length-append arr (x ∷ []),
    length-drop (length arr - 60 + 1) arr,
  )

  extend-IsSeries :
      (arr : List (Sample N)) (x : Sample N) → IsSeries arr → IsRate x → IsSeries (extend N arr x)
  extend-IsSeries arr x (short, rates) r = (omega (arith, length-extend arr x short), all)
    where
      all : All IsRate (extend N arr x)
      all =
          unfold extend in
          elim (Bool-cases (leb (max_samples N) (length arr))) [
            | inl e ↦ rw e (
                All-append IsRate (drop (length arr - 60 + 1) arr) (x ∷ [])
                  (All-drop IsRate (length arr - 60 + 1) arr rates) (r, tt))
            | inr e ↦ rw e (All-append IsRate arr (x ∷ []) rates (r, tt))
          ]

  sample-IsRate : (prev : Reading N) (ts rx tx : ℕ) → IsRate (sample N prev ts rx tx)
  unfolding sample
  sample-IsRate prev ts rx tx = (le_max _ _, le_max _ _)

  next_samples-IsSeries :
      (prev : Option (Reading N)) (arr : List (Sample N)) (ts rx tx : ℕ)
      → IsSeries arr
      → IsSeries (next_samples N prev arr ts rx tx)
  unfolding next_samples
  next_samples-IsSeries none arr ts rx tx h = (omega arith, tt)
  next_samples-IsSeries (some prev) arr ts rx tx h =
      extend-IsSeries arr _ h (sample-IsRate prev ts rx tx)

  or_else-IsSeries :
      (o : Option (List (Sample N)))
      → ((arr : List (Sample N)) → o ≡ some arr → IsSeries arr)
      → IsSeries (or_else o [])
  or_else-IsSeries none h = (omega arith, tt)
  or_else-IsSeries (some arr) h = h arr refl

  -- Every report of a tunnel's counters keeps all series within 60 samples, with no negative rate,
  -- and a tunnel has a series exactly if it has a last reading.
  pub push_sample-IsWindow :
      (id : String) (ts rx tx : ℕ) (s : TrafficHistory N)
      → IsWindow s
      → IsWindow (push_sample N id ts rx tx s)
  unfolding push_sample
  push_sample-IsWindow id ts rx tx s w = record {
    series = λ k arr e. ground (
      arith,
      lookup-insert id k
          (next_samples N (lookup id s.last) (or_else (lookup id s.history) []) ts rx tx) s.history,
      w.series k arr,
      next_samples-IsSeries (lookup id s.last) (or_else (lookup id s.history) []) ts rx tx
          (or_else-IsSeries (lookup id s.history) (w.series id)),
    );
    paired = λ k. ground (
      arith,
      lookup-insert id k
          (next_samples N (lookup id s.last) (or_else (lookup id s.history) []) ts rx tx) s.history,
      lookup-insert id k (record { ts = ts; rx = rx; tx = tx }) s.last,
      w.paired k,
    );
  }

  pub reset-IsWindow : (id : String) (s : TrafficHistory N) → IsWindow s → IsWindow (reset N id s)
  unfolding reset
  reset-IsWindow id s w = record {
    series = λ k arr e. ground (arith, lookup-without id k s.history, w.series k arr);
    paired =
        λ k. ground (arith, lookup-without id k s.history, lookup-without id k s.last, w.paired k);
  }

  pub initial-IsWindow : IsWindow (initial N)
  unfolding initial lookup
  initial-IsWindow = record { series = λ k arr e. cc; paired = λ k. refl }

  -- The readings of one tunnel, in order: (time, received, sent).
  unfoldable push_all : String → List (ℕ × ℕ × ℕ) → TrafficHistory N → TrafficHistory N
  push_all id [] s = s
  push_all id ((ts, rx, tx) ∷ rest) s = push_all id rest (push_sample N id ts rx tx s)

  push_all-length :
      (id : String) (readings : List (ℕ × ℕ × ℕ)) (s : TrafficHistory N) (prev : Reading N)
      (arr : List (Sample N))
      → lookup id s.last ≡ some prev
      → lookup id s.history ≡ some arr
      → length arr ≤ 60
      → (out : List (Sample N)) × (lookup id (push_all id readings s).history ≡ some out)
        × (length out ≡ min 60 (length arr + length readings))
  unfolding push_all
  push_all-length id [] s prev arr l h short = (arr, h, omega arith)
  push_all-length id ((ts, rx, tx) ∷ rest) s prev arr l h short =
      let x : Sample N = sample N prev ts rx tx in
      let (out, e, n) =
        push_all-length id rest (push_sample N id ts rx tx s) (record { ts = ts; rx = rx; tx = tx })
          (extend N arr x) (unfold push_sample in rw (lookup-insert, eq_refl))
          (unfold push_sample in rw (lookup-insert, eq_refl, l, h))
          (omega (arith, length-extend arr x short)) in
      (out, e, omega (arith, length-extend arr x short))

  -- After the first reading of a tunnel, which has no rate, each further one adds a sample until
  -- there are 60: the series of n + 1 readings has min(60, n) samples.
  window_length :
      (id : String) (first : ℕ × ℕ × ℕ) (readings : List (ℕ × ℕ × ℕ)) (s : TrafficHistory N)
      → lookup id s.last ≡ none
      → (out : List (Sample N)) × (lookup id (push_all id (first ∷ readings) s).history ≡ some out)
        × (length out ≡ min 60 (length readings))
  unfolding push_all
  window_length id (ts, rx, tx) readings s fresh =
      let (out, e, n) =
        push_all-length id readings (push_sample N id ts rx tx s)
          (record { ts = ts; rx = rx; tx = tx }) []
          (unfold push_sample in rw (lookup-insert, eq_refl))
          (unfold push_sample in rw (lookup-insert, eq_refl, fresh)) (omega arith) in
      (out, e, omega arith)
