-- ===== src/Desktop/Managed/Servers.antt =====
-- Polling the list of servers (`loadServers`): what is kept of the entries that were shown
-- before.
use mathlib.Core.Path.{subst, ap₂}
use pro_identity_access.Base.{
  String, false, ◌≡◌, inl, inr, refl, Option, none, some, List, [], ◌∷◌, map, All, arith, ◌==◌,
  eq_iff, has, Dict, lookup, insert, insert_all, lookup-insert, Bool-cases, if◌then◌else◌,
}
use pro_identity_access.Async.{ok, threw, both_of, Thrown, string_of, ◌>>=◌}
use pro_identity_access.Desktop.Types.{ServerStatus, ServerInfo}
use pro_identity_access.Desktop.Managed.{
  ManagedStore, State, ManagedApi, status_of, by_id, reload, load_servers,
}

abbrev IsAbsent : String → List ServerStatus → Type 0
IsAbsent id servers = All (λ ss. (ss.server.id == id) ≡ false) servers

-- No two entries are of one server.
abbrev HasDistinctIds : List ServerStatus → Type 0
HasDistinctIds [] = Unit
HasDistinctIds (ss ∷ rest) = IsAbsent ss.server.id rest × HasDistinctIds rest

abbrev entries : List ServerStatus → Dict ServerStatus
entries = map (λ ss. (ss.server.id, ss))

-- The entry of a server in the list, if there is one.
unfoldable pub entry_of : String → List ServerStatus → Option ServerStatus
entry_of id [] = none
entry_of id (ss ∷ rest) = if ss.server.id == id then some ss else entry_of id rest

lookup-insert_all_absent :
    (id : String) (servers : List ServerStatus) (d : Dict ServerStatus)
    → IsAbsent id servers
    → lookup id (insert_all (entries servers) d) ≡ lookup id d
unfolding insert_all
lookup-insert_all_absent id [] d _ = refl
lookup-insert_all_absent id (ss ∷ rest) d (p, ps) = ground (
  arith,
  lookup-insert_all_absent id rest (insert ss.server.id ss d) ps,
  lookup-insert ss.server.id id ss d,
)

abbrev either {ℓ} : {A : Type ℓ} → Option A → Option A → Option A
either none b = b
either (some a) b = some a

lookup-insert_all :
    (id : String) (servers : List ServerStatus) (d : Dict ServerStatus)
    → HasDistinctIds servers
    → lookup id (insert_all (entries servers) d) ≡ either (entry_of id servers) (lookup id d)
unfolding insert_all entry_of
lookup-insert_all id [] d _ = refl
lookup-insert_all id (ss ∷ rest) d (absent, distinct) = elim (Bool-cases (ss.server.id == id)) [
  | inl e ↦
      let here = subst (λ i. IsAbsent i rest) ((eq_iff ss.server.id id).0 e) absent in
      rw (e, lookup-insert_all_absent id rest (insert ss.server.id ss d) here, lookup-insert, e)
  | inr e ↦ rw (e, lookup-insert_all id rest (insert ss.server.id ss d) distinct, lookup-insert, e)
]

-- What the list shows of one server after a poll that listed it.
abbrev polled : ManagedStore → List String → ServerInfo → ServerStatus
polled s active i = record {
  server = i;
  connected = has i.id active;
  tunnel_id =
      if has i.id active
      then elim (entry_of i.id s.servers) [ none ↦ none | some before ↦ before.tunnel_id ]
      else none;
  connecting = false;
  error = none;
}

lookup-by_id :
    (id : String) (servers : List ServerStatus)
    → HasDistinctIds servers
    → lookup id (by_id servers) ≡ entry_of id servers
unfolding by_id lookup
lookup-by_id id servers h = rw (lookup-insert_all id servers [] h) (ground arith)

-- The poll's new list, entry by entry.
reload-polled :
    (listed : List ServerInfo) (active : List String) (s : ManagedStore)
    → HasDistinctIds s.servers
    → (reload listed active s).servers ≡ map (polled s active) listed
unfolding reload
reload-polled [] active s h = refl
reload-polled (i ∷ listed) active s h =
    ap₂ ◌∷◌ (unfold status_of in rw (lookup-by_id i.id s.servers h))
      (reload-polled listed active s h)

module _ {W : Type 0} (api : ManagedApi W) where
  -- When both calls return and the entries then in the store have distinct ids, the list holds the
  -- listed servers in their order, each connected exactly if it is active, and an active one still
  -- shows the tunnel that it showed before.
  pub load_servers-polled :
      (s s' s'' : State W) (listed : List ServerInfo) (active : List String)
      → api.list_servers s ≡ (ok listed, s')
      → api.active_servers s' ≡ (ok active, s'')
      → HasDistinctIds s''.0.servers
      → (load_servers api s).1.0.servers ≡ map (polled s''.0 active) listed
  unfolding load_servers ◌>>=◌
  load_servers-polled s s' s'' listed active p q h = rw (p, q) (reload-polled listed active s''.0 h)

  -- When one call rejects, or both do, polling does not throw: the store shows the reason that
  -- settled first, and the servers stay as they were after the calls.
  pub load_servers-failed :
      (s : State W) (e : Thrown)
      → let (listed, s') = api.list_servers s in
        let (active, s'') = api.active_servers s' in
        both_of api.active_first listed active ≡ threw e
        → load_servers api s ≡ (ok tt, (record s''.0 { error = some (string_of e) }, s''.1))
  unfolding load_servers ◌>>=◌
  load_servers-failed s e h = rw h
