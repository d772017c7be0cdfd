-- ===== src/Desktop/Connections/Rows.antt =====
-- Which rows the list of connections has.
use pro_identity_access.Base.{
  has-append, String, Bool, not, ◌&&◌, ◌||◌, ◌≡◌, refl, sym, ap, ◌∙◌, List, [], ◌∷◌, ◌++◌, map,
  keep, has, Option-cases, inl, inr, arith,
}
use pro_identity_access.Desktop.Types.{TunnelInfo, ServerStatus}
use pro_identity_access.Desktop.Connections.{
  Row, imported, managed_active, managed_available, is_managed, is_profile, resolve, server_rows,
  imported_rows, build_rows,
}

-- The servers that have rows, in order.
abbrev pub row_servers : List Row → List ServerStatus
row_servers [] = []
row_servers (imported t ∷ rows) = row_servers rows
row_servers (managed_active t ss ∷ rows) = ss ∷ row_servers rows
row_servers (managed_available ss ∷ rows) = ss ∷ row_servers rows

-- The tunnels that stand in the rows of servers, and in rows of their own.
abbrev pub claimed : List Row → List TunnelInfo
claimed [] = []
claimed (managed_active t ss ∷ rows) = t ∷ claimed rows
claimed (imported t ∷ rows) = claimed rows
claimed (managed_available ss ∷ rows) = claimed rows

abbrev pub on_their_own : List Row → List TunnelInfo
on_their_own [] = []
on_their_own (imported t ∷ rows) = t ∷ on_their_own rows
on_their_own (managed_active t ss ∷ rows) = on_their_own rows
on_their_own (managed_available ss ∷ rows) = on_their_own rows

abbrev pub ids : List TunnelInfo → List String
ids = map (λ t. t.id)

abbrev imported_all : List TunnelInfo → List Row
imported_all = map imported

row_servers-append :
    (rows : List Row) (ts : List TunnelInfo)
    → row_servers (rows ++ imported_all ts) ≡ row_servers rows
row_servers-append [] [] = refl
row_servers-append [] (t ∷ ts) = row_servers-append [] ts
row_servers-append (imported t ∷ rows) ts = row_servers-append rows ts
row_servers-append (managed_active t ss ∷ rows) ts = ap (λ x. ss ∷ x) (row_servers-append rows ts)
row_servers-append (managed_available ss ∷ rows) ts = ap (λ x. ss ∷ x) (row_servers-append rows ts)

claimed-append :
    (rows : List Row) (ts : List TunnelInfo) → claimed (rows ++ imported_all ts) ≡ claimed rows
claimed-append [] [] = refl
claimed-append [] (t ∷ ts) = claimed-append [] ts
claimed-append (imported t ∷ rows) ts = claimed-append rows ts
claimed-append (managed_active t ss ∷ rows) ts = ap (λ x. t ∷ x) (claimed-append rows ts)
claimed-append (managed_available ss ∷ rows) ts = claimed-append rows ts

on_their_own-imported : (ts : List TunnelInfo) → on_their_own (imported_all ts) ≡ ts
on_their_own-imported [] = refl
on_their_own-imported (t ∷ ts) = ap (λ x. t ∷ x) (on_their_own-imported ts)

module _ (normalize : String → String) (tunnels : List TunnelInfo) where
  row_servers-server_rows :
      (servers : List ServerStatus) (used : List String)
      → row_servers (server_rows normalize tunnels servers used).0 ≡ servers
  unfolding server_rows
  row_servers-server_rows [] used = refl
  row_servers-server_rows (ss ∷ rest) used =
      elim (Option-cases (resolve normalize ss tunnels used)) [
        | inl e ↦ rw e (ap (λ x. ss ∷ x) (row_servers-server_rows rest used))
        | inr (t, e) ↦ rw e (ap (λ x. ss ∷ x) (row_servers-server_rows rest (used ++ t.id ∷ [])))
      ]

  -- The ids that are used in the end are those that were used before and those of the rows.
  used-server_rows :
      (servers : List ServerStatus) (used : List String) (id : String)
      → has id (server_rows normalize tunnels servers used).1
        ≡ (has id used || has id (ids (claimed (server_rows normalize tunnels servers used).0)))
  unfolding server_rows
  used-server_rows [] used id = ground arith
  used-server_rows (ss ∷ rest) used id = elim (Option-cases (resolve normalize ss tunnels used)) [
    | inl e ↦ rw e (used-server_rows rest used id)
    | inr (t, e) ↦ rw e (
        used-server_rows rest (used ++ t.id ∷ []) id
        ∙ ground (arith, has-append id used (t.id ∷ [])))
  ]

  own-server_rows :
      (servers : List ServerStatus) (used : List String) (ts : List TunnelInfo)
      → on_their_own ((server_rows normalize tunnels servers used).0 ++ imported_all ts) ≡ ts
  unfolding server_rows
  own-server_rows [] used ts = on_their_own-imported ts
  own-server_rows (ss ∷ rest) used ts = elim (Option-cases (resolve normalize ss tunnels used)) [
    | inl e ↦ rw e (own-server_rows rest used ts)
    | inr (t, e) ↦ rw e (own-server_rows rest (used ++ t.id ∷ []) ts)
  ]

keep-cong :
    (p q : TunnelInfo → Bool) (ts : List TunnelInfo)
    → ((t : TunnelInfo) → p t ≡ q t)
    → keep p ts ≡ keep q ts
keep-cong p q [] h = refl
keep-cong p q (t ∷ ts) h = ground (arith, h t, keep-cong p q ts h)

-- The list has one row for each server, in the order of the servers. Of the tunnels that are no
-- assigned profiles, those which nobody manages have rows of their own, in their order, except where
-- a server's row shows a tunnel of that id: each such tunnel is shown, and none in both ways.
pub build_rows_lem :
    (normalize : String → String) (all : List TunnelInfo) (servers : List ServerStatus)
    → let rows = build_rows normalize all servers in
      (row_servers rows ≡ servers)
      × (on_their_own rows
          ≡ keep
              (λ t. not (has t.id (ids (claimed rows))) && not (is_managed t))
              (keep (λ t. not (is_profile t)) all))
unfolding build_rows imported_rows
build_rows_lem normalize all servers =
    let tunnels : List TunnelInfo = keep (λ t. not (is_profile t)) all in
    let rows : List Row = (server_rows normalize tunnels servers []).0 in
    let own : List TunnelInfo =
      keep (λ t. not (has t.id (server_rows normalize tunnels servers []).1) && not (is_managed t))
        tunnels in
    (
      row_servers-append rows own ∙ row_servers-server_rows normalize tunnels servers [],
      own-server_rows normalize tunnels servers [] own
          ∙ keep-cong _ _ tunnels λ t.
            ap (λ b. not b && not (is_managed t))
              (used-server_rows normalize tunnels servers [] t.id
                ∙ ap (λ ts. has t.id (ids ts)) (sym (claimed-append rows own))),
    )
