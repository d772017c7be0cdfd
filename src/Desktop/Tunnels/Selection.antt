-- ===== src/Desktop/Tunnels/Selection.antt =====
-- The selection of the tunnel store: after an import, a deletion or an update it names a tunnel of
-- the list, if it did before.
use pro_identity_access.Base.{
  String, Bool, true, false, not, ◌≡◌, refl, Option, none, some, List, [], ◌∷◌, ◌++◌, ◌||◌, arith,
  ◌==◌, inl, inr, eq_iff, eq_refl, any, keep, All, truthy, Bool-cases, if◌then◌else◌,
}
use pro_identity_access.Async.{
  Outcome, ok, threw, js_error, message_of, Outcome-cases, Ends, string_of, ◌>>=◌,
}
use pro_identity_access.Desktop.Types.{TunnelInfo}
use pro_identity_access.Desktop.Tunnels.{
  TunnelStore, State, TunnelApi, at_tunnel, removed, added, import, delete, clear_error,
  update_tunnel, first_id, is_id, refresh, refreshed, auto_select, is_selected,
}

abbrev Shows : Option String → List TunnelInfo → Type 0
Shows none tunnels = Unit
Shows (some id) tunnels = any (λ t. t.id == id) tunnels ≡ true

abbrev IsShown : TunnelStore → Type 0
IsShown s = Shows s.selected_id s.tunnels

first_id-Shows : (tunnels : List TunnelInfo) → Shows (first_id tunnels) tunnels
first_id-Shows [] = tt
first_id-Shows (t ∷ _) = rw (eq_refl t.id)

any-append :
    (id : String) (xs : List TunnelInfo) (t : TunnelInfo)
    → t.id ≡ id
    → any (λ t. t.id == id) (xs ++ t ∷ []) ≡ true
any-append id [] t e = ground (arith, eq_iff t.id id)
any-append id (x ∷ xs) t e = ground (arith, any-append id xs t e)

any-keep :
    (id gone : String) (xs : List TunnelInfo)
    → (gone == id) ≡ false
    → any (λ t. t.id == id) xs ≡ true
    → any (λ t. t.id == id) (keep (λ t. not (t.id == gone)) xs) ≡ true
any-keep id gone [] d h = h
any-keep id gone (x ∷ xs) d h =
    ground (arith, any-keep id gone xs d, eq_iff x.id id, eq_iff x.id gone, eq_iff gone id)

keep-All-ne :
    (gone : String) (xs : List TunnelInfo)
    → All (λ t. (t.id == gone) ≡ false) (keep (λ t. not (t.id == gone)) xs)
keep-All-ne gone [] = tt
keep-All-ne gone (x ∷ xs) = ground (arith, keep-All-ne gone xs)

removed-IsShown : (id : String) (s : TunnelStore) → IsShown s → IsShown (removed id s)
unfolding removed
removed-IsShown id s h = go s.selected_id h
  where
    go :
        (sel : Option String)
        → Shows sel s.tunnels
        → Shows
            (if is_id id sel then first_id (keep (λ t. not (t.id == id)) s.tunnels) else sel)
            (keep (λ t. not (t.id == id)) s.tunnels)
    go none h = tt
    go (some sel) h = elim (Bool-cases (sel == id)) [
      | inl e ↦ rw e (first_id-Shows (keep (λ t. not (t.id == id)) s.tunnels))
      | inr e ↦ rw e (any-keep sel id s.tunnels (ground (arith, eq_iff sel id, eq_iff id sel)) h)
    ]

any-at_tunnel :
    (id at : String) (f : TunnelInfo → TunnelInfo)
    → ((t : TunnelInfo) → t.id ≡ at → (f t).id ≡ at)
    → (xs : List TunnelInfo) → any (λ t. t.id == id) (at_tunnel at f xs) ≡ any (λ t. t.id == id) xs
unfolding at_tunnel
any-at_tunnel id at f same [] = refl
any-at_tunnel id at f same (x ∷ xs) =
    ground (arith, any-at_tunnel id at f same xs, same x, eq_iff x.id at)

at_tunnel-Shows :
    (sel : Option String) (at : String) (f : TunnelInfo → TunnelInfo)
    → ((t : TunnelInfo) → t.id ≡ at → (f t).id ≡ at)
    → (xs : List TunnelInfo) → Shows sel xs
    → Shows sel (at_tunnel at f xs)
at_tunnel-Shows none at f same xs h = tt
at_tunnel-Shows (some id) at f same xs h = rw (any-at_tunnel id at f same xs) h

-- A report of the service about one tunnel keeps the selection in the list.
update_tunnel-IsShown :
    (info : TunnelInfo) (s : TunnelStore) → IsShown s → IsShown (update_tunnel info s)
unfolding update_tunnel
update_tunnel-IsShown info s h =
    at_tunnel-Shows s.selected_id info.id (λ _. info) (λ _ _. refl) s.tunnels h

-- What an import makes of the answer and of the store `m` that it meets.
abbrev Refused : String → TunnelStore → Outcome (Unit {0}) → TunnelStore → Type 0
Refused message m r m' =
    (r ≡ threw (js_error "Error" message)) × (m' ≡ record m { error = some message })

abbrev AfterImport :
    String → Outcome (Option TunnelInfo) → TunnelStore → Outcome (Unit {0}) → TunnelStore → Type 0
AfterImport empty (threw e) m r m' = Refused (message_of e) m r m'
AfterImport empty (ok none) m r m' = Refused empty m r m'
AfterImport empty (ok (some t)) m r m' =
    if truthy t.id
    then (r ≡ ok tt)
      × (m' ≡ record m { tunnels = m.tunnels ++ t ∷ []; selected_id = some t.id })
      × IsShown m'
    else Refused empty m r m'

-- `promise.catch(() => d)`
abbrev answered {ℓ} : {A : Type ℓ} → A → Outcome A → A
answered d (ok a) = a
answered d (threw _) = d

abbrev is_empty : List TunnelInfo → Bool
is_empty [] = true
is_empty (_ ∷ _) = false

module _ {W : Type 0} (api : TunnelApi W) where
  -- A deletion that the service accepts takes every tunnel of that id out of the list, leaves the
  -- others in order, and the selection names a tunnel of the list, as it did when the service
  -- answered; one that the service refuses changes only the error, and throws it.
  pub delete_lem :
      (id : String) (s : State W)
      → IsShown (api.delete_tunnel id (clear_error s.0, s.1)).1.0
      → let (answer, s') = api.delete_tunnel id (clear_error s.0, s.1) in
        let (r, s'') = delete api id s in
        Ends answer
          (λ _.
            (r ≡ ok tt)
            × All (λ t. (t.id == id) ≡ false) s''.0.tunnels
            × (s''.0.tunnels ≡ keep (λ t. not (t.id == id)) s'.0.tunnels)
            × IsShown s''.0)
          (λ e. (r ≡ threw e) × (s''.0 ≡ record s'.0 { error = some (string_of e) }))
  unfolding delete ◌>>=◌
  delete_lem id s shown = elim (Outcome-cases (api.delete_tunnel id (clear_error s.0, s.1)).0) [
    | inl (_, e) ↦ rw e (
      refl,
      unfold removed in keep-All-ne id _,
      unfold removed in refl,
      removed-IsShown id _ shown,
    )
    | inr (x, e) ↦ rw e (refl, refl)
  ]

  -- An import that the service answers with a tunnel that has an id adds it at the end of the list
  -- and selects it; any other answer throws an `Error` with the message that the store then shows,
  -- and changes nothing else.
  pub import_lem :
      (name content : String) (s : State W)
      → let (answer, s') = api.import_tunnel name content (clear_error s.0, s.1) in
        let (r, s'') = import api name content s in
        AfterImport api.empty_response answer s'.0 r s''.0
  unfolding import ◌>>=◌ added message_of
  import_lem name content s =
      elim (Outcome-cases (api.import_tunnel name content (clear_error s.0, s.1)).0) [
        | inl (some t, e) ↦ elim (Bool-cases (truthy t.id)) [
          | inl named ↦ rw (e, named) (refl, refl, any-append t.id _ t refl)
          | inr unnamed ↦ rw (e, unnamed) (refl, refl)
        ]
        | inl (none, e) ↦ rw e (refl, refl)
        | inr (x, e) ↦ rw e (refl, refl)
      ]

  -- A refresh never rejects and is over afterwards: an answer that fails counts as offline or as no
  -- tunnels. A selection is kept, and without one the first tunnel is selected, if there is one.
  pub refresh_lem :
      (s : State W)
      → let (a, s') = api.is_daemon_running (record s.0 { loading = true; error = none }, s.1) in
        let (b, s'') = api.list_tunnels s' in
        let (r, t) = refresh api s in
        (r ≡ ok tt)
        × (t.0.loading ≡ false)
        × (t.0.error ≡ s''.0.error)
        × (t.0.tunnels ≡ answered [] b)
        × (t.0.daemon_online ≡ answered false a)
        × (t.0.selected_id ≡ (
            if is_selected s''.0.selected_id || is_empty (answered [] b)
            then s''.0.selected_id
            else first_id (answered [] b)))
  unfolding refresh ◌>>=◌ refreshed auto_select
  refresh_lem s = ground arith
