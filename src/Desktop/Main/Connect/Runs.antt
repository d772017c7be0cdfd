-- ===== src/Desktop/Main/Connect/Runs.antt =====
-- What a refused connection starts, and what that does to the attempt before it and to a second one.
use pro_identity_access.Base.{
  ℕ, zero, suc, ◌<◌, String, true, false, ◌&&◌, ◌≡◌, refl, sym, ap, ◌∙◌, Option, none, some, List,
  [], ◌∷◌, ◌++◌, length, eq_refl, arith,
}
use pro_identity_access.Async.{Thrown, ok, threw, message_of, pure, catch, ◌>>=◌}
use pro_identity_access.Desktop.Types.{ServerInfo}
use pro_identity_access.Desktop.Managed.{ManagedStore}
use pro_identity_access.Desktop.Main.State.{View, Run}
use pro_identity_access.Desktop.Main.Connect.{
  ConnectApi, get_run, cancel_at, cancel_run, flag, waits_for, is_cancelled, is_waiting, start_run,
  cancel_current, open_sheet, push_connect, start_push, refused, connect_managed,
}

get_run-append : (rs : List Run) (r : Run) → get_run (length rs) (rs ++ r ∷ []) ≡ some r
get_run-append [] r = refl
get_run-append (x ∷ rs) r = get_run-append rs r

get_run-append_old :
    (i : ℕ) (rs qs : List Run) → i < length rs → get_run i (rs ++ qs) ≡ get_run i rs
get_run-append_old i [] qs h = absurd (omega arith)
get_run-append_old zero (x ∷ rs) qs h = refl
get_run-append_old (suc i) (x ∷ rs) qs h = get_run-append_old i rs qs (omega arith)

length-cancel_at : (i : ℕ) (rs : List Run) → length (cancel_at i rs) ≡ length rs
length-cancel_at i [] = refl
length-cancel_at zero (x ∷ rs) = refl
length-cancel_at (suc i) (x ∷ rs) = ap suc (length-cancel_at i rs)

length-cancel_run : (o : Option ℕ) (rs : List Run) → length (cancel_run o rs) ≡ length rs
length-cancel_run none rs = refl
length-cancel_run (some i) rs = length-cancel_at i rs

pub get_run-cancel_at :
    (i : ℕ) (rs : List Run)
    → i < length rs
    → (r : Run) × (get_run i (cancel_at i rs) ≡ some r) × (r.cancelled ≡ true)
get_run-cancel_at i [] h = absurd (omega arith)
get_run-cancel_at zero (x ∷ rs) h = (record x { cancelled = true }, refl, refl)
get_run-cancel_at (suc i) (x ∷ rs) h = get_run-cancel_at i rs (omega arith)

abbrev fresh_run : String → Run
fresh_run server_id = record { server_id = server_id; cancelled = false }

-- The run that was added is found at the old length.
get_run-started :
    (o : Option ℕ) (rs : List Run) (r : Run)
    → get_run (length rs) (cancel_run o rs ++ r ∷ []) ≡ some r
get_run-started o rs r =
    ap (λ n. get_run n (cancel_run o rs ++ r ∷ [])) (sym (length-cancel_run o rs))
    ∙ get_run-append (cancel_run o rs) r

-- The run that was current is still found, and cancelled.
get_run-stopped :
    (i : ℕ) (rs : List Run) (r : Run)
    → i < length rs
    → (q : Run) × (get_run i (cancel_at i rs ++ r ∷ []) ≡ some q) × (q.cancelled ≡ true)
get_run-stopped i rs r h =
    let (q, found, stopped) = get_run-cancel_at i rs h in
    let inside : i < length (cancel_at i rs) = rw (length-cancel_at i rs) h in
    (q, get_run-append_old i (cancel_at i rs) (r ∷ []) inside ∙ found, stopped)

abbrev InRange : Option ℕ → List Run → Type 0
InRange none rs = Unit
InRange (some i) rs = i < length rs

-- The run that was current, if there was one, is cancelled.
abbrev pub Stopped : Option ℕ → View → Type 0
Stopped none v = Unit
Stopped (some i) v = is_cancelled i v ≡ true

stopped_lem :
    (o : Option ℕ) (srv : ServerInfo) (v : View)
    → v.current_run ≡ o
    → InRange o v.runs
    → Stopped o (open_sheet srv (start_run srv.id (cancel_current v)))
unfolding open_sheet start_run cancel_current is_cancelled
stopped_lem none srv v current there = tt
stopped_lem (some i) srv v current there =
    let r : Run = fresh_run srv.id in
    let (q, old, stopped) = get_run-stopped i v.runs r there in
    ap (λ o. flag (get_run i (cancel_run o v.runs ++ r ∷ []))) current ∙ ap flag old ∙ stopped

started :
    (srv : ServerInfo) (v : View)
    → let v' = open_sheet srv (start_run srv.id (cancel_current v)) in
      (is_cancelled (length v.runs) v' ≡ false) × (is_waiting srv.id v' ≡ true)
unfolding open_sheet start_run cancel_current is_cancelled is_waiting
started srv v =
    let r : Run = fresh_run srv.id in
    let found : get_run (length v.runs) (cancel_run v.current_run v.runs ++ r ∷ []) ≡ some r =
      get_run-started v.current_run v.runs r in
    (
      ap flag found,
      ap (waits_for srv.id) (get_run-append (cancel_run v.current_run v.runs) r)
          ∙ ap (λ x. x && true) (eq_refl srv.id),
    )

module _ {W : Type 0} (api : ConnectApi W) (srv : ServerInfo) where
  connect_managed_waiting :
      (m : ManagedStore) (v : View) (w : W)
      → is_waiting srv.id v ≡ true
      → connect_managed api srv (m, (v, w)) ≡ (ok tt, (m, (v, w)))
  unfolding connect_managed pure ◌>>=◌
  connect_managed_waiting m v w h = rw h refl

  refused_push :
      (e : Thrown) (m : ManagedStore) (v : View) (w : W)
      → api.includes (message_of e) "require_push_auth" ≡ true
      → refused api srv e (m, (v, w))
        ≡ push_connect api srv
            (length v.runs)
            (m, (open_sheet srv (start_run srv.id (cancel_current v)), w))
  unfolding refused start_push ◌>>=◌
  refused_push e m v w h = rw h refl

  connect_managed-refused :
      (e : Thrown) (m m' : ManagedStore) (v v' : View) (w w' : W)
      → is_waiting srv.id v ≡ false
      → api.connect_server srv "" (m, (record v { pending_server_id = some srv.id }, w))
        ≡ (threw e, (m', (v', w')))
      → connect_managed api srv (m, (v, w)) ≡ refused api srv e (m', (v', w'))
  unfolding connect_managed catch ◌>>=◌
  connect_managed-refused e m m' v v' w w' idle answer = rw (idle, answer) refl

  -- If no attempt on the server waits, the current run is in the list of runs, and the service
  -- refuses a connection because it wants an approval, the attempt goes on as a new run: it starts
  -- in a state in which the run is not cancelled, the run that was current before is, the
  -- verification sheet is open on the server, and a second attempt on the same server does nothing
  -- at all.
  pub connect_managed_twice :
      (e : Thrown) (m m' : ManagedStore) (v v' : View) (w w' : W)
      → is_waiting srv.id v ≡ false
      → api.connect_server srv "" (m, (record v { pending_server_id = some srv.id }, w))
        ≡ (threw e, (m', (v', w')))
      → api.includes (message_of e) "require_push_auth" ≡ true
      → InRange v'.current_run v'.runs
      → (x : View) × (connect_managed api srv (m, (v, w))
          ≡ push_connect api srv (length v'.runs) (m', (x, w')))
        × (is_cancelled (length v'.runs) x ≡ false)
        × Stopped v'.current_run x
        × (x.totp_for_server ≡ some srv)
        × (connect_managed api srv (m', (x, w')) ≡ (ok tt, (m', (x, w'))))
  connect_managed_twice e m m' v v' w w' idle answer asks there =
      let x : View = open_sheet srv (start_run srv.id (cancel_current v')) in
      let (running, waiting) = started srv v' in
      (
        x,
        connect_managed-refused e m m' v v' w w' idle answer ∙ refused_push e m' v' w' asks,
        running,
        stopped_lem v'.current_run srv v' refl there,
        unfold open_sheet in refl,
        connect_managed_waiting m' x w' waiting,
      )
