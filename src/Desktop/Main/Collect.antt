-- ===== src/Desktop/Main/Collect.antt =====
-- client/frontend/src/App.tsx: the throughput history of connections that are gone is dropped.
use Prim.Native.String
use pro_identity_access.Base.{
  String, Bool, true, false, not, ◌&&◌, ◌||◌, any, has-append, ◌≡◌, refl, ◌∙◌, inl, inr, none, List,
  [], ◌∷◌, ◌++◌, map, Dict, lookup, lookup-without, values, keys, keep, has, is_some, Bool-cases,
  ◌==◌, eq_iff, arith, if◌then◌else◌,
}
use pro_identity_access.Desktop.Types.{TunnelInfo, TunnelStatus, connected, connecting}
use pro_identity_access.Desktop.OpenVpn.{OpenVpnStatus, ovpn_prefix, is_live}
use pro_identity_access.Desktop.Traffic.{Number, TrafficHistory, reset}
use pro_identity_access.Desktop.Traffic.Window.{IsWindow, reset-IsWindow}

-- The ids of the tunnels, and of the sessions that are live.
unfoldable pub shown_ids : List TunnelInfo → Dict OpenVpnStatus → List String
shown_ids tunnels sessions =
    map (λ t. t.id) tunnels
    ++ map (λ s. String.◌++◌ ovpn_prefix s.id) (keep is_live (values sessions))

-- Some tunnel has this id.
abbrev pub is_tunnel : String → List TunnelInfo → Bool
is_tunnel k ts = any (λ (t : TunnelInfo). k == t.id) ts

abbrev is_running : TunnelStatus → Bool
is_running connected = true
is_running connecting = true
is_running _ = false

-- This is the key of a session that is connecting or connected.
abbrev pub is_session : String → List OpenVpnStatus → Bool
is_session k ss =
    any (λ (s : OpenVpnStatus). k == String.◌++◌ "ovpn:" s.id && is_running s.status) ss

has-tunnels :
    (k : String) (ts : List TunnelInfo) → has k (map (λ (t : TunnelInfo). t.id) ts) ≡ is_tunnel k ts
has-tunnels k [] = refl
has-tunnels k (t ∷ ts) = ground (arith, has-tunnels k ts)

live_running : (s : OpenVpnStatus) → is_live s ≡ is_running s.status
live_running s = refl

has-sessions :
    (k : String) (ss : List OpenVpnStatus)
    → has k (map (λ (s : OpenVpnStatus). String.◌++◌ ovpn_prefix s.id) (keep is_live ss))
      ≡ is_session k ss
has-sessions k [] = refl
has-sessions k (s ∷ ss) = elim (Bool-cases (is_live s)) [
  | inl e ↦ ground (arith, e, live_running s, has-sessions k ss)
  | inr e ↦ ground (arith, e, live_running s, has-sessions k ss)
]

has-shown_ids :
    (k : String) (tunnels : List TunnelInfo) (sessions : Dict OpenVpnStatus)
    → has k (shown_ids tunnels sessions) ≡ (is_tunnel k tunnels || is_session k (values sessions))
unfolding shown_ids
has-shown_ids k tunnels sessions =
    has-append k (map (λ (t : TunnelInfo). t.id) tunnels) _
    ∙ rw (has-tunnels k tunnels, has-sessions k (values sessions)) refl

module _ (N : Number) where
  unfoldable pub sweep : (id : String) → (shown : List String) → TrafficHistory N → TrafficHistory N
  sweep id shown h = if has id shown then h else reset N id h

  unfoldable collect_from :
      (found : List String) → (shown : List String) → TrafficHistory N → TrafficHistory N
  collect_from [] shown h = h
  collect_from (id ∷ found) shown h = collect_from found shown (sweep id shown h)

  unfoldable pub collect :
      List TunnelInfo → Dict OpenVpnStatus → TrafficHistory N → TrafficHistory N
  unfolding collect_from shown_ids
  collect tunnels sessions h = collect_from (keys h.history) (shown_ids tunnels sessions) h

  lookup-sweep :
      (k id : String) (shown : List String) (h : TrafficHistory N)
      → lookup k (sweep id shown h).history
        ≡ (if k == id && not (has k shown) then none else lookup k h.history)
  unfolding sweep reset
  lookup-sweep k id shown h =
      ground (arith, lookup-without id k h.history, eq_iff k id, eq_iff id k)

  sweep-IsWindow :
      (id : String) (shown : List String) (h : TrafficHistory N)
      → IsWindow N h
      → IsWindow N (sweep id shown h)
  unfolding sweep
  sweep-IsWindow id shown h w = elim (Bool-cases (has id shown)) [
    | inl e ↦ rw e w
    | inr e ↦ rw e (reset-IsWindow N id h w)
  ]

  lookup-collect_from :
      (k : String) (found shown : List String) (h : TrafficHistory N)
      → lookup k (collect_from found shown h).history
        ≡ (if has k found && not (has k shown) then none else lookup k h.history)
  unfolding collect_from
  lookup-collect_from k [] shown h = refl
  lookup-collect_from k (id ∷ found) shown h =
      lookup-collect_from k found shown (sweep id shown h)
      ∙ ground (arith, lookup-sweep k id shown h, eq_iff k id)

  collect_from-IsWindow :
      (found shown : List String) (h : TrafficHistory N)
      → IsWindow N h
      → IsWindow N (collect_from found shown h)
  unfolding collect_from
  collect_from-IsWindow [] shown h w = w
  collect_from-IsWindow (id ∷ found) shown h w =
      collect_from-IsWindow found shown (sweep id shown h) (sweep-IsWindow id shown h w)

  has-keys {ℓ} : {V : Type ℓ} (k : String) (d : Dict V) → has k (keys d) ≡ is_some (lookup k d)
  unfolding keys lookup
  has-keys k [] = refl
  has-keys k ((j, v) ∷ d) = ground (arith, has-keys k d, eq_iff k j, eq_iff j k)

  -- Dropping what is gone keeps the history a window, and keeps the series of a connection exactly
  -- if its key is the id of a tunnel of the list, or "ovpn:" and the id of a session that is
  -- connecting or connected.
  pub collect_lem :
      (tunnels : List TunnelInfo) (sessions : Dict OpenVpnStatus) (h : TrafficHistory N)
      → IsWindow N h
      → IsWindow N (collect tunnels sessions h)
        × ((k : String)
            → lookup k (collect tunnels sessions h).history ≡ (
                if is_tunnel k tunnels || is_session k (values sessions)
                then lookup k h.history
                else none))
  unfolding collect
  collect_lem tunnels sessions h w = (
    collect_from-IsWindow (keys h.history) (shown_ids tunnels sessions) h w,
    λ k.
        lookup-collect_from k (keys h.history) (shown_ids tunnels sessions) h
        ∙ (ground (arith, has-keys k h.history, has-shown_ids k tunnels sessions)),
  )
