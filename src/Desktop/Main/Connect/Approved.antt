-- ===== src/Desktop/Main/Connect/Approved.antt =====
-- What comes of an approval, and what a new run does to the one before it.
use pro_identity_access.Base.{ℕ, suc, String, true, false, ◌≡◌, refl, ap, ◌∙◌, none, some}
use Prim.Native.String
use pro_identity_access.Async.{ok, catch, ◌>>=◌}
use pro_identity_access.Async.Returns.{Returns}
use pro_identity_access.Desktop.Types.{ServerInfo, ServerStatus, TunnelInfo}
use pro_identity_access.Desktop.Managed.{ManagedStore, at_server, set_servers}
use pro_identity_access.Desktop.Managed.Connecting.{
  Entries, at_server-Entries, others, others-at_server,
}
use pro_identity_access.Desktop.Main.State.{State, View}
use pro_identity_access.Desktop.Main.Connect.{
  ConnectApi, close_sheet, approve, finish, wait, leave_run, push_connect,
}
use pro_identity_access.Desktop.Main.Connect.Rounds.{
  Waits, here, next, Round, with_status, wait-react, react-open, react-approved,
}

module _ {W : Type 0} (api : ConnectApi W) (srv : ServerInfo) (run : ℕ) (request_id : String) where
  -- Rounds that leave the request open change nothing but what is left to do.
  wait-Waits :
      {n m : ℕ} {s t : State W}
      → Waits api srv run request_id n s m t
      → wait api srv run request_id n s ≡ wait api srv run request_id m t
  wait-Waits (here n s) = refl
  wait-Waits {s} (next {n} {m} {t} status r other still_open w) =
      wait-react api srv run request_id n s t status r
      ∙ react-open api srv run request_id status _ t other still_open
      ∙ wait-Waits w

  -- The state in which the list of servers is read again after an approval.
  abbrev connected_state : TunnelInfo → State W → State W
  connected_state tunnel (m, (v, w)) =
      (set_servers (at_server srv.id (approve tunnel)) m, (close_sheet srv.id v, w))

  -- An approval within the 45 rounds goes on to connect.
  wait_approved :
      (s t u v : State W) (n : ℕ) (tunnel : TunnelInfo)
      → Waits api srv run request_id 45 s (suc n) t
      → Round api srv run request_id t "approved" u
      → api.connect_server_push srv.id srv.name request_id
          (with_status api srv run request_id "approved" u)
        ≡ (ok tunnel, v)
      → wait api srv run request_id 45 s ≡ api.load_servers (connected_state tunnel v)
  unfolding finish ◌>>=◌
  wait_approved s t u v n tunnel w r answer =
      wait-Waits w
      ∙ wait-react api srv run request_id n t u "approved" r
      ∙ react-approved api srv run request_id "approved" _ u refl
      ∙ rw answer refl

  -- A request that is still open after 45 rounds is shown as expired, and nothing is connected.
  wait_expired :
      (s t : State W)
      → Waits api srv run request_id 45 s 0 t
      → wait api srv run request_id 45 s ≡ (ok tt, with_status api srv run request_id "expired" t)
  unfolding wait
  wait_expired s t w = wait-Waits w

-- The entry shows that the server is connected with the tunnel.
abbrev Up : TunnelInfo → ServerStatus → Type 0
Up tunnel ss =
    (ss.connected ≡ true)
    × (ss.connecting ≡ false)
    × (ss.tunnel_id ≡ some tunnel.id)
    × (ss.error ≡ none)

-- What an approval has done to the store and to the view: the entries of the server show the tunnel,
-- those of other servers are as they were, the sheet is closed, and the server is remembered.
abbrev pub Connected : ServerInfo → TunnelInfo → (m m' : ManagedStore) → View → Type 0
Connected srv tunnel m m' v =
    Entries srv.id (Up tunnel) m'.servers
    × (others srv.id m'.servers ≡ others srv.id m.servers)
    × (v.totp_for_server ≡ none)
    × (v.push_driven ≡ false)
    × (v.push_auth_available ≡ false)
    × (v.last_server_id ≡ some srv.id)

module _ {W : Type 0} (api : ConnectApi W) (srv : ServerInfo) (run : ℕ) where
  abbrev pub left : State W → State W
  left (m, (v, w)) = (m, (leave_run run v, w))

  push_connect_waited :
      (request_id : String) (s0 s z : State W)
      → api.create_push_auth (String.◌++◌ "Connect to " srv.name) s0 ≡ (ok request_id, s)
      → wait api srv run request_id 45 s ≡ (ok tt, z)
      → push_connect api srv run s0 ≡ (ok tt, left z)
  unfolding push_connect catch ◌>>=◌
  push_connect_waited request_id s0 s z created waited = rw (created, waited) refl

  connected_lem :
      (request_id : String) (tunnel : TunnelInfo) (m : ManagedStore) (v : View) (w : W)
      → let x = connected_state api srv run request_id tunnel (m, (v, w)) in
        Connected srv tunnel m x.0 x.1.0
  unfolding close_sheet
  connected_lem request_id tunnel m v w = (
    at_server-Entries srv.id (approve tunnel) (Up tunnel) (λ _. (refl, refl, refl, refl))
        (λ _. refl) m.servers,
    others-at_server srv.id (approve tunnel) (λ _. refl) m.servers,
    refl,
    refl,
    refl,
    refl,
  )

  -- An attempt whose request is approved within 45 rounds, at no look of which the run is cancelled,
  -- connects: if the service then accepts and reading the list of servers never throws, the list is
  -- read again in a state in which the entries of the server show the tunnel, those of other servers
  -- are as they were, the sheet is closed and the server is remembered; and the attempt returns.
  pub push_connect_approved :
      (request_id : String) (s0 s t u : State W) (m : ManagedStore) (v : View) (w : W) (n : ℕ)
      (tunnel : TunnelInfo)
      → Returns api.load_servers
      → api.create_push_auth (String.◌++◌ "Connect to " srv.name) s0 ≡ (ok request_id, s)
      → Waits api srv run request_id 45 s (suc n) t
      → Round api srv run request_id t "approved" u
      → api.connect_server_push srv.id srv.name request_id
          (with_status api srv run request_id "approved" u)
        ≡ (ok tunnel, (m, (v, w)))
      → (m' : ManagedStore) × (v' : View) × Connected srv tunnel m m' v'
        × (push_connect api srv run s0 ≡ (ok tt, left (api.load_servers (m', (v', w))).1))
  push_connect_approved request_id s0 s t u m v w n tunnel reads created waits round answer =
      let x = connected_state api srv run request_id tunnel (m, (v, w)) in
      let (_, read) = reads.at x in
      (
        x.0,
        x.1.0,
        connected_lem request_id tunnel m v w,
        push_connect_waited request_id s0 s (api.load_servers x).1 created (
            wait_approved api srv run request_id s t u (m, (v, w)) n tunnel waits round answer
            ∙ ap (λ r. (r, (api.load_servers x).1)) read),
      )
