-- ===== src/Desktop/Main/Focus/Priority.antt =====
-- What the main view shows: never nothing while there is something to show, and what is live first.
use pro_identity_access.Base.{
  String, ◌≡◌, ◌↔◌, refl, Option, none, some, List, [], ◌∷◌, find, first, keep, values, or_some,
  arith,
}
use pro_identity_access.Desktop.Types.{ServerInfo, ServerStatus}
use pro_identity_access.Desktop.OpenVpn.{OpenVpnStatus, ErrorTexts, is_live}
use pro_identity_access.Desktop.Main.Focus.{
  Scene, focused_tunnel, preferred_managed_server, named_server, server_of, is_error,
  session_tunnel, pending_tunnel, selected_tunnel, preferred_tunnel,
}

or_some-none {ℓ} : {A : Type ℓ} (x y : Option A) → (or_some x y ≡ none) ↔ ((x ≡ none) × (y ≡ none))
or_some-none none y = ((λ h. (refl, h)), (λ (_, h). h))
or_some-none (some x) y = ((λ h. cc), (λ (h, _). cc))

first-none {ℓ} : {A : Type ℓ} (xs : List A) → (first xs ≡ none) ↔ (xs ≡ [])
first-none [] = ((λ h. refl), (λ h. refl))
first-none (x ∷ xs) = ((λ h. cc), (λ h. cc))

named_server-nil : (id : Option String) → named_server id [] ≡ none
named_server-nil none = refl
named_server-nil (some id) = ground arith

pending_tunnel-nil : (id : Option String) → pending_tunnel id [] ≡ none
pending_tunnel-nil id = rw (named_server-nil id, pending_tunnel) refl

selected_tunnel-nil : (id : Option String) → selected_tunnel id [] ≡ none
selected_tunnel-nil none = refl
selected_tunnel-nil (some id) = ground arith

session_tunnel-none :
    (texts : ErrorTexts) (x : Option OpenVpnStatus) → session_tunnel texts x ≡ none → x ≡ none
session_tunnel-none texts none h = refl
session_tunnel-none texts (some x) h = cc

preferred_tunnel-none :
    (srv : Option ServerInfo) (servers : List ServerStatus)
    → preferred_tunnel srv servers ≡ none
    → srv ≡ none
preferred_tunnel-none none servers h = refl
preferred_tunnel-none (some srv) servers h = cc

server_of-none : (x : Option ServerStatus) → server_of x ≡ none → x ≡ none
server_of-none none h = refl
server_of-none (some x) h = cc

-- The view is empty exactly if there is no tunnel, no live session and no server.
pub focused_tunnel-none :
    (texts : ErrorTexts) (s : Scene)
    → (focused_tunnel texts s ≡ none)
      ↔ ((s.tunnels ≡ []) × (keep is_live (values s.sessions) ≡ []) × (s.servers ≡ []))
unfolding focused_tunnel preferred_managed_server
focused_tunnel-none texts s = (
  λ h.
      let (no_up, h1) = (or_some-none _ _).0 h in
      let (no_session, h2) = (or_some-none _ _).0 h1 in
      let (no_error, h3) = (or_some-none (find (λ t. is_error t.status) s.tunnels) _).0 h2 in
      let (no_pending, h4) = (or_some-none (pending_tunnel s.pending_server_id s.servers) _).0 h3 in
      let (no_selected, h5) = (or_some-none (selected_tunnel s.selected_id s.tunnels) _).0 h4 in
      let (no_first, no_preferred) = (or_some-none _ _).0 h5 in
      (
        (first-none s.tunnels).0 no_first,
        (first-none _).0 ((or_some-none _ _).0 (session_tunnel-none texts _ no_session)).1,
        (first-none s.servers).0 (
            server_of-none _
              ((or_some-none (named_server s.last_server_id s.servers) _).0
                (preferred_tunnel-none _ s.servers no_preferred)).1),
      ),
  λ (no_tunnel, no_session, no_server).
      rw
        (
          no_tunnel,
          no_session,
          no_server,
          pending_tunnel-nil s.pending_server_id,
          named_server-nil s.last_server_id,
          selected_tunnel-nil s.selected_id,
        )
        refl,
)
