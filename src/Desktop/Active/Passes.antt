-- ===== src/Desktop/Active/Passes.antt =====
-- client/frontend/src/lib/activeConnections.ts: which connections are listed, and since when.
use Prim.Native.String
use pro_identity_access.Base.{
  ℕ, String, true, false, ◌≡◌, refl, ap, ◌∙◌, ◌⊎◌, inl, inr, ◌++◌, some, List, [], ◌∷◌, map, Dict,
  lookup, lookup-insert, lookup-without, values, keep, All, Bool-cases, ◌==◌, arith, eq_iff,
}
use pro_identity_access.Desktop.Types.{TunnelInfo, StatsInfo}
use pro_identity_access.Desktop.OpenVpn.{OpenVpnStatus, ovpn_prefix, is_live, is_up}
use pro_identity_access.Desktop.Active.{
  seen, wireguard_connection, openvpn_connection, wireguard_connections, active_connections,
}

wireguard_connections_ids :
    (all_traffic : String) (now : ℕ) (stats : Dict StatsInfo) (tunnels : List TunnelInfo)
    (since : Dict ℕ)
    → map (λ c. c.id) (wireguard_connections all_traffic now stats tunnels since).0
      ≡ map (λ t. t.id) (keep (λ t. is_up t.status) tunnels)
unfolding wireguard_connections wireguard_connection
wireguard_connections_ids all_traffic now stats [] since = refl
wireguard_connections_ids all_traffic now stats (t ∷ ts) since =
    elim (Bool-cases (is_up t.status)) [
      | inl e ↦ rw e (
          ap (λ ids. t.id ∷ ids)
            (wireguard_connections_ids all_traffic now stats ts (seen now t since)))
      | inr e ↦ rw e (wireguard_connections_ids all_traffic now stats ts (seen now t since))
    ]

map-append : {A B : Type 0} (f : A → B) (xs ys : List A) → map f (xs ++ ys) ≡ map f xs ++ map f ys
map-append f [] ys = refl
map-append f (x ∷ xs) ys = ap (λ zs. f x ∷ zs) (map-append f xs ys)

session_ids :
    (all_traffic : String) (sessions : List OpenVpnStatus)
    → map (λ c. c.id) (map (openvpn_connection all_traffic) sessions)
      ≡ map (λ s. String.◌++◌ ovpn_prefix s.id) sessions
unfolding openvpn_connection
session_ids all_traffic [] = refl
session_ids all_traffic (s ∷ sessions) =
    ap (λ ids. String.◌++◌ ovpn_prefix s.id ∷ ids) (session_ids all_traffic sessions)

-- The list has one entry for each tunnel that is connected or connecting, under the tunnel's id and
-- in the order of the tunnels, and then one for each such OpenVPN session, under its marked id.
active_connections_ids :
    (all_traffic : String) (now : ℕ) (stats : Dict StatsInfo) (sessions : Dict OpenVpnStatus)
    → (tunnels : List TunnelInfo) (since : Dict ℕ)
    → map (λ c. c.id) (active_connections all_traffic now stats sessions tunnels since).0
      ≡ map (λ t. t.id) (keep (λ t. is_up t.status) tunnels)
        ++ map (λ s. String.◌++◌ ovpn_prefix s.id) (keep is_live (values sessions))
unfolding active_connections
active_connections_ids all_traffic now stats sessions tunnels since =
    map-append (λ c. c.id) (wireguard_connections all_traffic now stats tunnels since).0
      (map (openvpn_connection all_traffic) (keep is_live (values sessions)))
    ∙ rw
        (
          wireguard_connections_ids all_traffic now stats tunnels since,
          session_ids all_traffic (keep is_live (values sessions)),
        )
        refl

-- Each tunnel of the id is connected or connecting.
abbrev StaysUp : String → List TunnelInfo → Type 0
StaysUp id ts = All (λ t. ((t.id == id) ≡ false) ⊎ (is_up t.status ≡ true)) ts

lookup-seen :
    (id : String) (first now : ℕ) (t : TunnelInfo) (since : Dict ℕ)
    → lookup id since ≡ some first
    → ((t.id == id) ≡ false) ⊎ (is_up t.status ≡ true)
    → lookup id (seen now t since) ≡ some first
unfolding seen
lookup-seen id first now t since h up =
    ground
      (arith, h, up, eq_iff t.id id, lookup-insert t.id id now since, lookup-without t.id id since)

wireguard_connections_since :
    (id all_traffic : String) (first now : ℕ) (stats : Dict StatsInfo) (tunnels : List TunnelInfo)
    (since : Dict ℕ)
    → lookup id since ≡ some first
    → StaysUp id tunnels
    → lookup id (wireguard_connections all_traffic now stats tunnels since).1 ≡ some first
unfolding wireguard_connections
wireguard_connections_since id all_traffic first now stats [] since h up = h
wireguard_connections_since id all_traffic first now stats (t ∷ ts) since h (u, up) =
    wireguard_connections_since id all_traffic first now stats ts (seen now t since)
      (lookup-seen id first now t since h u) up

-- A tunnel that has once been seen connected keeps the time of it through any pass, later or not, in
-- which every tunnel of its id is connected or connecting.
pub active_connections_since :
    (id all_traffic : String) (first now : ℕ) (stats : Dict StatsInfo)
    (sessions : Dict OpenVpnStatus)
    → (tunnels : List TunnelInfo) (since : Dict ℕ) → lookup id since ≡ some first
    → StaysUp id tunnels
    → lookup id (active_connections all_traffic now stats sessions tunnels since).1 ≡ some first
unfolding active_connections
active_connections_since id all_traffic first now stats sessions tunnels since h up =
    wireguard_connections_since id all_traffic first now stats tunnels since h up
