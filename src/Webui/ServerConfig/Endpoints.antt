-- ===== src/Webui/ServerConfig/Endpoints.antt =====
-- The endpoints that are sent for a server (server/webui/src/pages/ServerDetail.tsx).
use pro_identity_access.Base.{
  ℕ, ℤ, pos, IsNatural, IsPositive, IsNonzero, or_int-IsNonzero, or_int-IsPositive, suc, ◌*◌,
  String, Bool, true, ◌≡◌, refl, inl, inr, Option, some, List, [], ◌∷◌, All, or_else, truthy,
  Bool-cases, arith,
}
use pro_identity_access.Webui.Types.{WgServer, WgServerEndpointInput}
use pro_identity_access.Webui.ServerConfig.{
  default_port, clean, clean_at, port_of, update_of, Config, Form,
}

port_of-IsNonzero :
    (parse_int : String → Option ℤ) (s : WgServer) (f : Form) → IsNonzero (port_of parse_int s f)
unfolding port_of
port_of-IsNonzero parse_int s f =
    or_int-IsNonzero (or_else (parse_int f.port) (pos 0)) _
      (or_int-IsNonzero s.port default_port tt)

-- A row that can be sent: it has a host and a port, and says whether it is enabled.
abbrev IsClean : WgServerEndpointInput → Type 0
IsClean r = (truthy r.host ≡ true) × (IsNonzero r.port × ((b : Bool) × (r.enabled ≡ some b)))

abbrev IsBehind : WgServerEndpointInput → Type 0
IsBehind r = IsClean r × IsPositive r.priority

-- The priority of the row is not negative.
abbrev pub IsRanked : WgServerEndpointInput → Type 0
IsRanked r = IsNatural r.priority

module _ (trim : String → String) (port : ℤ) (positive : IsNonzero port) where
  clean_at-IsClean :
      (i : ℕ) (ep : WgServerEndpointInput)
      → truthy (trim ep.host) ≡ true
      → IsClean (clean_at trim port i ep)
  clean_at-IsClean i ep h =
      (h, (or_int-IsNonzero ep.port port positive, (or_else ep.enabled true, refl)))

  behind-IsPositive :
      (i : ℕ) (ep : WgServerEndpointInput)
      → IsRanked ep
      → IsPositive (clean_at trim port (suc i) ep).priority
  behind-IsPositive i ep n = or_int-IsPositive ep.priority (pos (suc i * 10)) n (omega arith)

  clean-IsBehind :
      (i : ℕ) (eps : List WgServerEndpointInput)
      → All IsRanked eps
      → All IsBehind (clean trim port (suc i) eps)
  unfolding clean
  clean-IsBehind i [] ns = tt
  clean-IsBehind i (ep ∷ eps) (n, ns) = elim (Bool-cases (truthy (trim ep.host))) [
    | inl e ↦
        rw e
          ((clean_at-IsClean (suc i) ep e, behind-IsPositive i ep n), clean-IsBehind (suc i) eps ns)
    | inr e ↦ rw e (clean-IsBehind (suc i) eps ns)
  ]

-- The first of the rows that are sent has this host and the priority 0, and stands before the rest.
abbrev pub Leads : String → List WgServerEndpointInput → Type 0
Leads host [] = ⊥
Leads host (r ∷ rs) = (IsClean r × (r.host ≡ host) × (r.priority ≡ pos 0)) × All IsBehind rs

clean-Leads :
    (trim : String → String) (port : ℤ) (ep : WgServerEndpointInput)
    (eps : List WgServerEndpointInput)
    → IsNonzero port
    → truthy (trim ep.host) ≡ true
    → All IsRanked eps
    → Leads (trim ep.host) (clean trim port 0 (ep ∷ eps))
unfolding clean
clean-Leads trim port ep eps p h ns =
    rw h ((clean_at-IsClean trim port p 0 ep h, refl, refl), clean-IsBehind trim port p 0 eps ns)

-- If the first row of the form has a host and no later row has a negative priority, the first row
-- that is saved has that host, trimmed, at priority 0, and all that follow have a greater priority
-- number; each row that is sent has a host, a port other than 0 and a mark of being enabled.
pub update_of-Leads :
    (trim : String → String) (parse_int : String → Option ℤ) (s : WgServer) (c : Config)
    (ep : WgServerEndpointInput) (eps : List WgServerEndpointInput)
    → c.endpoints ≡ ep ∷ eps
    → truthy (trim ep.host) ≡ true
    → All IsRanked eps
    → Leads (trim ep.host) (update_of trim parse_int s c).endpoints
unfolding update_of
update_of-Leads trim parse_int s c ep eps e h ns =
    rw e (clean-Leads trim _ ep eps (port_of-IsNonzero parse_int s c.form) h ns)
