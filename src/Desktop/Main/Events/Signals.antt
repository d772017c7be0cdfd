-- ===== src/Desktop/Main/Events/Signals.antt =====
-- What the events of the service leave in the state.
use pro_identity_access.Base.{
  ℕ, String, true, false, ◌≡◌, ◌↔◌, refl, inl, inr, Option, none, some, List, [], ◌∷◌, any, find,
  keep, values, Bool-cases, ◌==◌, eq_refl, arith, if◌then◌else◌,
}
use pro_identity_access.Desktop.Types.{TunnelInfo, TunnelStatus}
use pro_identity_access.Desktop.Managed
use pro_identity_access.Desktop.Managed.{ManagedStore}
use pro_identity_access.Desktop.Tunnels.{at_tunnel, update_tunnel}
use pro_identity_access.Desktop.OpenVpn.{ErrorTexts, is_live}
use pro_identity_access.Desktop.Main.Focus.{focused_tunnel}
use pro_identity_access.Desktop.Main.Focus.Priority.{focused_tunnel-none}
use pro_identity_access.Desktop.Main.State.{View, scene_of, toast, toast_failure}
use pro_identity_access.Desktop.Main.Events.{
  tunnel_changed, news, tell, same_error, auth_expired, installation_revoked,
}

find-at_tunnel :
    (info : TunnelInfo) (ts : List TunnelInfo)
    → any (λ t. t.id == info.id) ts ≡ true
    → find (λ t. t.id == info.id) (at_tunnel info.id (λ _. info) ts) ≡ some info
unfolding at_tunnel
find-at_tunnel info [] h = cc
find-at_tunnel info (t ∷ ts) h = elim (Bool-cases (t.id == info.id)) [
  | inl e ↦ rw (e, eq_refl info.id) refl
  | inr e ↦ rw (e, e) (find-at_tunnel info ts (rw e at h))
]

same_error_refl : (e : String) → same_error e (some e) ≡ true
same_error_refl e = eq_refl e

news_again : (status : TunnelStatus) (e : Option String) → news status e (some (status, e)) ≡ none
news_again status none = refl
news_again status (some e) = ground (arith, eq_refl e)

tunnels-tell : (now : ℕ) (msg : Option String) (v : View) → (tell now msg v).tunnels ≡ v.tunnels
tunnels-tell now none v = refl
tunnels-tell now (some msg) v = unfold toast_failure in ground arith

-- A report of a tunnel of the list that comes again, at any time, tells its failure no second time.
tunnel_changed_again :
    (now later : ℕ) (info : TunnelInfo) (v : View)
    → any (λ t. t.id == info.id) v.tunnels.tunnels ≡ true
    → (tunnel_changed later info (tunnel_changed now info v)).toasts
      ≡ (tunnel_changed now info v).toasts
unfolding tunnel_changed update_tunnel
tunnel_changed_again now later info v there =
    rw
      (
        tunnels-tell now _ (record v { tunnels = update_tunnel info v.tunnels }),
        find-at_tunnel info v.tunnels.tunnels there,
        news_again info.status info.error,
      )
      refl

-- When the session has expired, nobody is signed in and no server is listed, the sign-in sheet is
-- open with the server, the user and the name of the VPN as they were, the setup is as it was, and
-- the view is empty exactly if no OpenVPN session is live.
auth_expired_lem :
    (text : String) (texts : ErrorTexts) (m : ManagedStore) (v : View)
    → let (m', v') = auth_expired text (m, v) in
      ((m'.settings.logged_in ≡ false) × (m'.settings.is_admin ≡ false) × (m'.servers ≡ []))
      × ((v'.show_login ≡ true)
          × (m'.settings.server_url ≡ m.settings.server_url)
          × (m'.settings.username ≡ m.settings.username)
          × (m'.settings.vpn_name ≡ m.settings.vpn_name)
          × (v'.setup ≡ v.setup))
      × ((focused_tunnel texts (scene_of (m', v')) ≡ none)
          ↔ (keep is_live (values v.sessions.sessions) ≡ []))
unfolding auth_expired toast
auth_expired_lem text texts m v =
    let empty = focused_tunnel-none texts (scene_of (auth_expired text (m, v))) in
    (
      (refl, refl, refl),
      (refl, refl, refl, refl, refl),
      ((λ h. (empty.0 h).1), (λ h. empty.1 (refl, h, refl))),
    )

-- When the installation is revoked, the settings are those of a new one, the setup begins at its
-- first step, the last server is forgotten, also in a browser storage that can be written, and the
-- view is empty exactly if no OpenVPN session is live.
installation_revoked_lem :
    (text : String) (texts : ErrorTexts) (m : ManagedStore) (v : View)
    → let (m', v') = installation_revoked text (m, v) in
      ((m'.settings ≡ Managed.initial.settings) × (m'.servers ≡ []))
      × ((v'.setup.setup_done ≡ false) × (v'.setup.step ≡ "mode"))
      × ((v'.last_server_id ≡ none)
          × (v'.stored_server_id ≡ (if v.storage_writable then none else v.stored_server_id)))
      × ((focused_tunnel texts (scene_of (m', v')) ≡ none)
          ↔ (keep is_live (values v.sessions.sessions) ≡ []))
unfolding installation_revoked toast
installation_revoked_lem text texts m v =
    let empty = focused_tunnel-none texts (scene_of (installation_revoked text (m, v))) in
    (
      (refl, refl),
      (refl, refl),
      (refl, refl),
      ((λ h. (empty.0 h).1), (λ h. empty.1 (refl, h, refl))),
    )
