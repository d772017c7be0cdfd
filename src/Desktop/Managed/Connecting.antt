-- ===== src/Desktop/Managed/Connecting.antt =====
-- Connecting and disconnecting a managed server: what the list of servers shows when the action has
-- ended, on each branch, whatever other code did to the store while the call was awaited.
use pro_identity_access.Base.{
  String, Bool, true, false, not, ap, ◌≡◌, refl, none, some, List, [], ◌∷◌, All, arith, ◌==◌, keep,
  Bool-cases, inl, inr,
}
use pro_identity_access.Async.{Outcome, ok, threw, Outcome-cases, string_of, ◌>>=◌}
use pro_identity_access.Desktop.Types.{ServerStatus, ServerInfo, TunnelInfo}
use pro_identity_access.Desktop.Managed.{
  State, ManagedApi, at_server, set_servers, begin, go_up, go_down, give_up, connect_server,
  disconnect_server,
}

-- `P` of every entry of the server `id`.
abbrev pub Entries : String → (ServerStatus → Type 0) → List ServerStatus → Type 0
Entries id P servers = All P (keep (λ ss. ss.server.id == id) servers)

-- What an ended attempt shows: `r` is how the action ended, `t` the tunnel shown afterwards.
abbrev pub Settled : Outcome (Unit {0}) → Bool → ServerStatus → Type 0
Settled (ok _) up ss = (ss.connecting ≡ false) × (ss.connected ≡ up)
Settled (threw e) up ss = (ss.connecting ≡ false) × (ss.error ≡ some (string_of e))

pub at_server-Entries :
    (id : String) (f : ServerStatus → ServerStatus) (P : ServerStatus → Type 0)
    → ((ss : ServerStatus) → P (f ss))
    → ((ss : ServerStatus) → (f ss).server ≡ ss.server)
    → (servers : List ServerStatus) → Entries id P (at_server id f servers)
unfolding at_server
at_server-Entries id f P h same [] = tt
at_server-Entries id f P h same (ss ∷ rest) = elim (Bool-cases (ss.server.id == id)) [
  | inl e ↦
      let hit : ((f ss).server.id == id) ≡ true = rw (same ss) e in
      rw (e, hit) (h ss, at_server-Entries id f P h same rest)
  | inr e ↦ rw (e, e) (at_server-Entries id f P h same rest)
]

-- The entries of the other servers.
abbrev pub others : String → List ServerStatus → List ServerStatus
others id servers = keep (λ ss. not (ss.server.id == id)) servers

pub others-at_server :
    (id : String) (f : ServerStatus → ServerStatus)
    → ((ss : ServerStatus) → (f ss).server ≡ ss.server)
    → (servers : List ServerStatus) → others id (at_server id f servers) ≡ others id servers
unfolding at_server
others-at_server id f same [] = refl
others-at_server id f same (ss ∷ rest) = elim (Bool-cases (ss.server.id == id)) [
  | inl e ↦
      let hit : ((f ss).server.id == id) ≡ true = rw (same ss) e in
      rw (e, hit) (others-at_server id f same rest)
  | inr e ↦ rw (e, e) (ap (λ l. ss ∷ l) (others-at_server id f same rest))
]

-- Two updates of one server's entries are one update.
at_server_fuse :
    (id : String) (f g : ServerStatus → ServerStatus)
    → ((ss : ServerStatus) → (f ss).server ≡ ss.server)
    → (servers : List ServerStatus)
    → at_server id g (at_server id f servers) ≡ at_server id (λ ss. g (f ss)) servers
unfolding at_server
at_server_fuse id f g same [] = refl
at_server_fuse id f g same (ss ∷ rest) = ground (arith, same ss, at_server_fuse id f g same rest)

-- The entry that one uninterrupted attempt to connect leaves, by the answer of the service.
abbrev connected_by : Outcome TunnelInfo → ServerStatus → ServerStatus
connected_by (ok t) ss = record ss {
  connecting = false;
  error = none;
  connected = true;
  tunnel_id = some t.id;
}
connected_by (threw e) ss = record ss { connecting = false; error = some (string_of e) }

abbrev disconnected_by : Outcome (Unit {0}) → ServerStatus → ServerStatus
disconnected_by (ok _) ss = record ss {
  connecting = false;
  error = none;
  connected = false;
  tunnel_id = none;
}
disconnected_by (threw e) ss = record ss { connecting = false; error = some (string_of e) }

module _ {W : Type 0} (api : ManagedApi W) where
  -- The state in which the call is made: the entry already shows that it is connecting.
  abbrev pub marked : String → State W → State W
  marked id s = (set_servers (at_server id begin) s.0, s.1)

  -- However the attempt ends, and whatever other code did meanwhile, no entry of the server is left
  -- connecting: they are connected if the action returned, and show its error if it threw.
  pub connect_server-Settled :
      (server : ServerInfo) (c : String) (s : State W)
      → let (r, s') = connect_server api server c s in
        Entries server.id (Settled r true) s'.0.servers
  unfolding connect_server ◌>>=◌
  connect_server-Settled server c s =
      elim (Outcome-cases (api.connect_server server.id server.name c (marked server.id s)).0) [
        | inl (t, e) ↦ rw e (
            at_server-Entries server.id (go_up t) (Settled (ok tt) true) (λ _. (refl, refl))
              (λ _. refl) _)
        | inr (x, e) ↦ rw e (
            at_server-Entries server.id (give_up x) (Settled (threw x) true) (λ _. (refl, refl))
              (λ _. refl) _)
      ]

  -- However a disconnect ends, and whatever other code did meanwhile, no entry of the server is left
  -- connecting: they are not connected if the action returned, and show its error if it threw.
  pub disconnect_server-Settled :
      (id : String) (s : State W)
      → let (r, s') = disconnect_server api id s in Entries id (Settled r false) s'.0.servers
  unfolding disconnect_server ◌>>=◌
  disconnect_server-Settled id s = elim (Outcome-cases (api.disconnect_server id (marked id s)).0) [
    | inl (_, e) ↦
        rw e
          (at_server-Entries id go_down (Settled (ok tt) false) (λ _. (refl, refl)) (λ _. refl) _)
    | inr (x, e) ↦ rw e (
        at_server-Entries id (give_up x) (Settled (threw x) false) (λ _. (refl, refl)) (λ _. refl)
          _)
  ]

  -- If no other code touches the store during the call, connecting changes the server's entries by
  -- the answer alone and leaves all else in the store as it was, in the same order.
  pub connect_server_quiet :
      (server : ServerInfo) (c : String) (s : State W)
      → (api.connect_server server.id server.name c (marked server.id s)).1.0
        ≡ (marked server.id s).0
      → (connect_server api server c s).1.0
        ≡ set_servers
            (at_server server.id
              (connected_by (api.connect_server server.id server.name c (marked server.id s)).0))
            s.0
  unfolding connect_server ◌>>=◌
  connect_server_quiet server c s quiet =
      elim (Outcome-cases (api.connect_server server.id server.name c (marked server.id s)).0) [
        | inl (t, e) ↦
            rw (e, quiet, at_server_fuse server.id begin (go_up t) (λ _. refl) s.0.servers)
        | inr (x, e) ↦
            rw (e, quiet, at_server_fuse server.id begin (give_up x) (λ _. refl) s.0.servers)
      ]

  -- If no other code touches the store during the call, disconnecting changes the server's entries
  -- by the answer alone and leaves all else in the store as it was, in the same order.
  pub disconnect_server_quiet :
      (id : String) (s : State W)
      → (api.disconnect_server id (marked id s)).1.0 ≡ (marked id s).0
      → (disconnect_server api id s).1.0
        ≡ set_servers
            (at_server id (disconnected_by (api.disconnect_server id (marked id s)).0))
            s.0
  unfolding disconnect_server ◌>>=◌
  disconnect_server_quiet id s quiet =
      elim (Outcome-cases (api.disconnect_server id (marked id s)).0) [
        | inl (_, e) ↦ rw (e, quiet, at_server_fuse id begin go_down (λ _. refl) s.0.servers)
        | inr (x, e) ↦ rw (e, quiet, at_server_fuse id begin (give_up x) (λ _. refl) s.0.servers)
      ]
