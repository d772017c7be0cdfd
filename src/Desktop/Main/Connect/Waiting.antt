-- ===== src/Desktop/Main/Connect/Waiting.antt =====
-- The loop that waits for an approval, as a state machine: rounds that leave the request open, and
-- one way to stop.
use pro_identity_access.Base.{
  ℕ, zero, suc, String, false, ◌≡◌, refl, sym, ap, ◌∙◌, eq_iff, inl, inr, Bool-cases, ◌==◌, arith,
}
use mathlib.Core.Path.{subst}
use pro_identity_access.Async.{ok, threw, Outcome-cases}
use pro_identity_access.Desktop.Types.{ServerInfo}
use pro_identity_access.Desktop.Main.State.{State}
use pro_identity_access.Desktop.Main.Connect.{ConnectApi, finish, wait}
use pro_identity_access.Desktop.Main.Connect.Rounds.{
  gone, with_status, is_refusal, Round, Waits, Stops, wait-cancelled, wait-asleep, wait-polling,
  wait-delay_failed, wait-poll_failed, wait-react, react-approved, react-refused, react-open, here,
  next, out_of_attempts, cancelled, cancelled_asleep, cancelled_polling, delay_failed, poll_failed,
  approved, rejected,
}

module _ {W : Type 0} (api : ConnectApi W) (srv : ServerInfo) (run : ℕ) (request_id : String) where
  after_round :
      (a : ℕ) (s t : State W) (status : String)
      → Round api srv run request_id s status t
      → ((n : ℕ) × (u : State W) × Waits api srv run request_id a
            (with_status api srv run request_id status t)
            n
            u
          × Stops api srv run request_id n u
              (wait api srv run request_id a (with_status api srv run request_id status t)))
      → (n : ℕ) × (u : State W) × Waits api srv run request_id (suc a) s n u
        × Stops api srv run request_id n u (wait api srv run request_id (suc a) s)
  after_round a s t status r (n, u, w, e) = elim (Bool-cases (status == "approved")) [
    | inl yes_status ↦
        let same : status ≡ "approved" = (eq_iff status "approved").0 yes_status in
        (
          suc a,
          s,
          here (suc a) s,
          approved t (omega arith) (subst (λ x. Round api srv run request_id s x t) same r) (
              wait-react api srv run request_id a s t status r
              ∙ react-approved api srv run request_id status _ t yes_status
              ∙ ap (λ x. finish api srv request_id (with_status api srv run request_id x t)) same),
        )
    | inr other ↦ elim (Bool-cases (is_refusal api srv run request_id status)) [
      | inl no_status ↦ (
        suc a,
        s,
        here (suc a) s,
        rejected t status (omega arith) r no_status (
            wait-react api srv run request_id a s t status r
            ∙ react-refused api srv run request_id status _ t other no_status),
      )
      | inr still_open ↦ (
        n,
        u,
        next status r other still_open w,
        subst (λ x. Stops api srv run request_id n u x)
            (sym (
              wait-react api srv run request_id a s t status r
              ∙ react-open api srv run request_id status _ t other still_open))
            e,
      )
    ]
  ]

  asleep :
      (a : ℕ) (s u : State W)
      → gone api srv run request_id s ≡ false
      → api.delay s ≡ (ok tt, u)
      → ((x : State W)
          → (n : ℕ) × (t : State W) × Waits api srv run request_id a x n t
            × Stops api srv run request_id n t (wait api srv run request_id a x))
      → (n : ℕ) × (t : State W) × Waits api srv run request_id (suc a) s n t
        × Stops api srv run request_id n t (wait api srv run request_id (suc a) s)
  asleep a s u h d rest = elim (Bool-cases (gone api srv run request_id u)) [
    | inl g ↦ (
      suc a,
      s,
      here (suc a) s,
      cancelled_asleep u (omega arith) h d g (wait-asleep api srv run request_id a s u h d g),
    )
    | inr g ↦ elim (Outcome-cases (api.poll_push_auth request_id u).0) [
      | inr (e, q) ↦
          let x : State W = (api.poll_push_auth request_id u).1 in
          let polled : api.poll_push_auth request_id u ≡ (threw e, x) = ap (λ o. (o, x)) q in
          (
            suc a,
            s,
            here (suc a) s,
            poll_failed e u x (omega arith) h d g polled
                (wait-poll_failed api srv run request_id a s u x e h d g polled),
          )
      | inl (status, q) ↦
          let x : State W = (api.poll_push_auth request_id u).1 in
          let polled : api.poll_push_auth request_id u ≡ (ok status, x) = ap (λ o. (o, x)) q in
          elim (Bool-cases (gone api srv run request_id x)) [
            | inl k ↦ (
              suc a,
              s,
              here (suc a) s,
              cancelled_polling u x status (omega arith) h d g polled k
                  (wait-polling api srv run request_id a s u x status h d g polled k),
            )
            | inr k ↦
                after_round a s x status
                  (record {
                    slept = u;
                    open_before = h;
                    sleeps = d;
                    open_asleep = g;
                    polls = polled;
                    open_after = k;
                  })
                  (rest (with_status api srv run request_id status x))
          ]
    ]
  ]

  -- The loop that waits for an approval, for any number of attempts, goes through rounds that leave
  -- the request open and then stops in one of the ways of `Stops`: it runs out of attempts, the run
  -- is cancelled, a call fails, the request is refused, or it is approved in a round at no look of
  -- which the run is cancelled. Only in the last way does it go on to connect.
  pub wait-Stops :
      (attempts : ℕ) (s : State W)
      → (n : ℕ) × (t : State W) × Waits api srv run request_id attempts s n t
        × Stops api srv run request_id n t (wait api srv run request_id attempts s)
  wait-Stops zero s = (0, s, here 0 s, out_of_attempts refl (unfold wait in refl))
  wait-Stops (suc a) s = elim (Bool-cases (gone api srv run request_id s)) [
    | inl h ↦ (
      suc a,
      s,
      here (suc a) s,
      cancelled (omega arith) h (wait-cancelled api srv run request_id a s h),
    )
    | inr h ↦ elim (Outcome-cases (api.delay s).0) [
      | inr (e, q) ↦
          let u : State W = (api.delay s).1 in
          let slept : api.delay s ≡ (threw e, u) = ap (λ o. (o, u)) q in
          (
            suc a,
            s,
            here (suc a) s,
            delay_failed e u (omega arith) h slept
                (wait-delay_failed api srv run request_id a s u e h slept),
          )
      | inl (_, q) ↦ asleep a s (api.delay s).1 h (ap (λ o. (o, (api.delay s).1)) q) (wait-Stops a)
    ]
  ]
