-- ===== src/Desktop/OpenVpn/Sessions.antt =====
-- OpenVPN sessions as tunnels, and the table of sessions.
use Prim.Native.Char.{Char, code}
use Prim.Native.String
use Prim.Native.String.{[], ◌∷◌}
use text.Mathlib.TextPositions.{starts_with-append}
use text.Mathlib.TextLemmas.{cons-append}
use pro_identity_access.Base
use pro_identity_access.Base.{
  ℕ, String, Bool, true, false, ◌≡◌, ◌≢◌, refl, ap, Option, none, some, List, Dict, lookup, insert,
  lookup-insert, ◌==◌, eq_iff, eq_refl, arith, or_else, Bool-cases, ◌⊎◌, inl, inr, if◌then◌else◌,
  nat_eq,
}
use pro_identity_access.Async.{Async, ok, Outcome-cases, Ends, ◌>>=◌}
use pro_identity_access.Desktop.OpenVpn.{
  OpenVpnStatus, ErrorTexts, OpenVpnStore, ovpn_prefix, is_openvpn_tunnel, openvpn_as_tunnel,
  is_space, is_suffix, strip_protocol, index_from, load, apply,
}

-- A session shown as a tunnel is recognised as one.
is_openvpn_tunnel-openvpn_as_tunnel :
    (texts : ErrorTexts) (s : OpenVpnStatus)
    → is_openvpn_tunnel (some (openvpn_as_tunnel texts s)) ≡ true
unfolding is_openvpn_tunnel openvpn_as_tunnel
is_openvpn_tunnel-openvpn_as_tunnel texts s = starts_with-append ovpn_prefix s.id

-- A host with its port, as the service writes it: no blank and no parenthesis.
abbrev IsPlain : String → Type 0
IsPlain [] = Unit
IsPlain (c ∷ s) = (is_space c ≡ false) × (nat_eq (code c) b'(' ≡ false) × IsPlain s

abbrev head_code : String → ℕ
head_code [] = 0
head_code (c ∷ _) = code c

-- A text that does not begin with a parenthesis is none that does.
other_head :
    (c : Char) (s t : String)
    → nat_eq (code c) b'(' ≡ false
    → head_code t ≡ b'('
    → (c ∷ s == t) ≡ false
other_head c s t p h = elim (Bool-cases (c ∷ s == t)) [
  | inl e ↦ let same : code c ≡ head_code t = ap head_code ((eq_iff (c ∷ s) t).0 e) in ground arith
  | inr e ↦ e
]

is_suffix_plain :
    (c : Char) (s : String)
    → is_space c ≡ false
    → nat_eq (code c) b'(' ≡ false
    → is_suffix (c ∷ s) ≡ false
unfolding is_suffix
is_suffix_plain c s q p = rw (q, other_head c s "(TCP)" p refl, other_head c s "(UDP)" p refl)

-- The protocol note is taken off a plain host, and a host without one is left as it is.
strip_protocol-append :
    (host : String)
    → IsPlain host
    → (strip_protocol (String.◌++◌ host " (UDP)") ≡ host)
      × (strip_protocol (String.◌++◌ host "(TCP)") ≡ host)
      × (strip_protocol host ≡ host)
unfolding strip_protocol
strip_protocol-append [] _ = (unfold is_suffix in refl, unfold is_suffix in refl, refl)
strip_protocol-append (c ∷ s) (q, p, h) =
    let (udp, tcp, bare) = strip_protocol-append s h in
    (
      rw (cons-append, is_suffix_plain c (String.◌++◌ s " (UDP)") q p, udp),
      rw (cons-append, is_suffix_plain c (String.◌++◌ s "(TCP)") q p, tcp),
      rw (is_suffix_plain c s q p, bare),
    )

-- The last session of an id in a list.
unfoldable last_of : String → List OpenVpnStatus → Option OpenVpnStatus
last_of id Base.[] = none
last_of id (Base.◌∷◌ s list) = elim (last_of id list) [
  | none ↦ if s.id == id then some s else none
  | some t ↦ some t
]

lookup-index_from :
    (id : String) (list : List OpenVpnStatus) (next : Dict OpenVpnStatus)
    → lookup id (index_from list next)
      ≡ elim (last_of id list) [ none ↦ lookup id next | some t ↦ some t ]
unfolding index_from last_of
lookup-index_from id Base.[] next = refl
lookup-index_from id (Base.◌∷◌ s list) next =
    ground (arith, lookup-index_from id list (insert s.id s next), lookup-insert s.id id s next)

lookup-index_from_nil :
    (id : String) (list : List OpenVpnStatus)
    → lookup id (index_from list Base.[]) ≡ last_of id list
unfolding lookup
lookup-index_from_nil id list = ground (arith, lookup-index_from id list Base.[])

module _ {W : Type 0} (list_sessions : Async (OpenVpnStore × W) (List OpenVpnStatus)) where
  -- Loading replaces the table: under each id stands the last session of that id which the service
  -- listed, and no other. A service that does not answer changes nothing, and nothing is thrown.
  load_lem :
      (s : OpenVpnStore × W) (id : String)
      → let (answer, s') = list_sessions s in
        let (r, t) = load list_sessions s in
        (r ≡ ok tt) × Ends answer (λ list. lookup id t.0.sessions ≡ last_of id list) (λ _. t ≡ s')
  unfolding load ◌>>=◌ lookup
  load_lem s id = elim (Outcome-cases (list_sessions s).0) [
    | inl (list, e) ↦ rw e (refl, lookup-index_from_nil id list)
    | inr (x, e) ↦ rw e (refl, refl)
  ]

-- A report about a session replaces that session's entry and no other.
apply_lem :
    (s : OpenVpnStatus) (store : OpenVpnStore) (id : String)
    → lookup id (apply s store).sessions ≡ (if s.id == id then some s else lookup id store.sessions)
unfolding apply
apply_lem s store id = lookup-insert s.id id s store.sessions
