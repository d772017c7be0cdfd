-- ===== src/Desktop/Tunnels/Updates.antt =====
-- The status that a tunnel shows while it is connected or disconnected from the list.
use pro_identity_access.Base.{String, ◌≡◌, refl, some, List, [], ◌∷◌, inl, inr, arith}
use pro_identity_access.Async.{threw, Outcome-cases, Ends, Thrown, string_of, ◌>>=◌}
use pro_identity_access.Desktop.Types.{TunnelInfo, connecting, disconnected, error}
use pro_identity_access.Desktop.Tunnels.{
  State, TunnelApi, at_tunnel, set_tunnels, connect, disconnect,
}

at_tunnel_fuse :
    (id : String) (f g : TunnelInfo → TunnelInfo)
    → ((t : TunnelInfo) → (f t).id ≡ t.id)
    → (tunnels : List TunnelInfo)
    → at_tunnel id g (at_tunnel id f tunnels) ≡ at_tunnel id (λ t. g (f t)) tunnels
unfolding at_tunnel
at_tunnel_fuse id f g same [] = refl
at_tunnel_fuse id f g same (t ∷ rest) = ground (arith, same t, at_tunnel_fuse id f g same rest)

abbrev dialing : TunnelInfo → TunnelInfo
dialing t = record t { status = connecting }

abbrev failing : Thrown → TunnelInfo → TunnelInfo
failing e t = record t { status = error; error = some (string_of e) }

module _ {W : Type 0} (api : TunnelApi W) where
  -- Connecting a tunnel: it shows "connecting" from before the call on; if the call returns the
  -- store is as the call left it, and if it rejects the tunnel shows the error, which is thrown.
  pub connect_lem :
      (id : String) (s : State W)
      → let (answer, s') = api.connect_tunnel id (set_tunnels (at_tunnel id dialing) s.0, s.1) in
        let (r, s'') = connect api id s in
        (r ≡ answer)
        × Ends answer
            (λ _. s'' ≡ s')
            (λ e. s'' ≡ (
              record s'.0 {
                error = some (string_of e);
                tunnels = at_tunnel id (failing e) s'.0.tunnels;
              },
              s'.1,
            ))
  unfolding connect ◌>>=◌
  connect_lem id s =
      elim (Outcome-cases (api.connect_tunnel id (set_tunnels (at_tunnel id dialing) s.0, s.1)).0) [
        | inl (_, e) ↦ rw e (refl, refl)
        | inr (x, e) ↦ rw e (refl, refl)
      ]

  -- If nothing else touches the store during the call, a failed attempt changes that one tunnel's
  -- status and error and the store's error, and a tunnel that is not of this id is as before.
  pub connect_failed_quiet :
      (id : String) (s : State W) (e : Thrown)
      → let marked = set_tunnels (at_tunnel id dialing) s.0 in
        api.connect_tunnel id (marked, s.1) ≡ (threw e, (marked, s.1))
        → (connect api id s).1.0 ≡ record s.0 {
          error = some (string_of e);
          tunnels = at_tunnel id (failing e) s.0.tunnels;
        }
  unfolding connect ◌>>=◌
  connect_failed_quiet id s e h =
      rw (h, at_tunnel_fuse id dialing (failing e) (λ _. refl) s.0.tunnels)

  -- Disconnecting: the tunnel shows "disconnected" only once the service has answered, and a
  -- rejected call leaves every tunnel as it is.
  pub disconnect_lem :
      (id : String) (s : State W)
      → let (answer, s') = api.disconnect_tunnel id s in
        let (r, s'') = disconnect api id s in
        (r ≡ answer)
        × Ends answer
            (λ _.
              s''.0.tunnels ≡ at_tunnel id (λ t. record t { status = disconnected }) s'.0.tunnels)
            (λ e. s''.0 ≡ record s'.0 { error = some (string_of e) })
  unfolding disconnect ◌>>=◌
  disconnect_lem id s = elim (Outcome-cases (api.disconnect_tunnel id s).0) [
    | inl (_, e) ↦ rw e (refl, refl)
    | inr (x, e) ↦ rw e (refl, refl)
  ]
