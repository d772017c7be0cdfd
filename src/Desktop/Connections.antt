-- ===== src/Desktop/Connections.antt =====
-- client/frontend/src/components/ConnectionsList.tsx: the rows of the list of connections, what they
-- show and what their buttons do. `normalize` is the browser's `trim` and lower case of a name.
pub mod Rows
pub mod Resolve
pub mod Handlers
use Prim.Native.String
use pro_identity_access.Base.{
  ℕ, ◌+◌, ◌/◌, ◌%◌, max, String, Bool, true, false, not, ◌&&◌, ◌||◌, Option, none, some, List, [],
  ◌∷◌, ◌++◌, map, keep, find, first, has, any, or_else, or_some, truthy, ltb, length, nat_eq, ◌==◌,
  if◌then◌else◌,
}
use text.Mathlib.Text.{starts_with}
use pro_identity_access.Desktop.Types.{
  TunnelInfo, TunnelStatus, connected, connecting, disconnected, error, ServerStatus,
}
use pro_identity_access.Desktop.Bridge.Bindings.{WgProfileView, WgProfileHolder}
use pro_identity_access.Webui.Client.{decimal, path}

pub data Row : Type 0 where
  imported : TunnelInfo → Row
  managed_active : TunnelInfo → ServerStatus → Row
  managed_available : ServerStatus → Row

unfoldable pub key : Row → String
key (imported t) = String.◌++◌ "t-" t.id
key (managed_active t ss) = String.◌++◌ "m-" ss.server.id
key (managed_available ss) = String.◌++◌ "m-" ss.server.id

abbrev pub is_managed : TunnelInfo → Bool
is_managed t = or_else t.is_managed false

abbrev pub is_up : TunnelStatus → Bool
is_up connected = true
is_up connecting = true
is_up _ = false

-- The only element of a list of one.
abbrev pub single {ℓ} : {A : Type ℓ} → List A → Option A
single [] = none
single (x ∷ []) = some x
single (_ ∷ _ ∷ _) = none

abbrev by_id : Option String → List TunnelInfo → Option TunnelInfo
by_id none tunnels = none
by_id (some id) tunnels = if truthy id then find (λ t. t.id == id) tunnels else none

-- Assigned profiles have their own rows.
abbrev pub is_profile : TunnelInfo → Bool
is_profile t = starts_with t.id "wgp:"

abbrev pub free_active : List String → TunnelInfo → Bool
free_active used t = not (has t.id used) && is_managed t && is_up t.status

abbrev pub free_managed : List String → TunnelInfo → Bool
free_managed used t = not (has t.id used) && is_managed t

module _ (normalize : String → String) where
  abbrev pub same_name : ServerStatus → List String → TunnelInfo → Bool
  same_name ss used t =
      not (has t.id used)
      && normalize t.name == normalize ss.server.name
      && (is_managed t || is_up t.status)

  -- The tunnel of a connected server that does not name one.
  abbrev pub guess : ServerStatus → List TunnelInfo → List String → Option TunnelInfo
  guess ss tunnels used = or_some (find (same_name ss used) tunnels) (
      or_some (single (keep (free_active used) tunnels))
        (single (keep (free_managed used) tunnels)))

  -- `resolveManagedTunnel`: the tunnel of a server, by its id, its name, or because no other is left.
  unfoldable pub resolve : ServerStatus → List TunnelInfo → (used : List String) → Option TunnelInfo
  resolve ss tunnels used =
      or_some (by_id ss.tunnel_id tunnels) (if ss.connected then guess ss tunnels used else none)

  abbrev server_row : ServerStatus → Option TunnelInfo → Row
  server_row ss none = managed_available ss
  server_row ss (some t) = managed_active t ss

  abbrev claim : Option TunnelInfo → List String → List String
  claim none used = used
  claim (some t) used = used ++ t.id ∷ []

  -- The loop over the servers: the rows, and the ids that are used in the end.
  unfoldable pub server_rows :
      List TunnelInfo → List ServerStatus → List String → List Row × List String
  unfolding resolve
  server_rows tunnels [] used = ([], used)
  server_rows tunnels (ss ∷ rest) used =
      let o = resolve ss tunnels used in
      let (rows, used') = server_rows tunnels rest (claim o used) in (server_row ss o ∷ rows, used')

  -- The loop over the tunnels.
  unfoldable pub imported_rows : List TunnelInfo → (used : List String) → List Row
  imported_rows tunnels used =
      map imported (keep (λ t. not (has t.id used) && not (is_managed t)) tunnels)

  unfoldable pub build_rows : List TunnelInfo → List ServerStatus → List Row
  unfolding server_rows imported_rows
  build_rows all servers =
      let tunnels = keep (λ t. not (is_profile t)) all in
      let (rows, used) = server_rows tunnels servers [] in rows ++ imported_rows tunnels used

abbrev row_name : Row → String
row_name (imported t) = t.name
row_name (managed_active t ss) = ss.server.name
row_name (managed_available ss) = ss.server.name

abbrev row_sub : Row → String
row_sub (imported t) = or_else (first t.addresses) ""
row_sub (managed_active t ss) = or_else (first t.addresses) ss.server.subnet
row_sub (managed_available ss) = ss.server.subnet

abbrev has_error : Option String → Bool
has_error none = false
has_error (some e) = truthy e

abbrev row_status : Row → TunnelStatus
row_status (imported t) = t.status
row_status (managed_active t ss) = t.status
row_status (managed_available ss) =
    if ss.connecting then connecting else if has_error ss.error then error else disconnected

abbrev is_imported : Row → Bool
is_imported (imported t) = true
is_imported _ = false

-- `match`, for the query as it is after `trim` and lower case.
abbrev is_match :
    (lower : String → String) (includes : (text part : String) → Bool) (q : String) → String → Bool
is_match lower includes q name = not (truthy q) || includes (lower name) q

-- The status of the row of an assigned profile, and whether somebody else has it up.
abbrev here_status : Option WgProfileHolder → TunnelStatus
here_status none = disconnected
here_status (some h) = if h.this_device then connected else disconnected

abbrev known_status : Option TunnelInfo → TunnelStatus → TunnelStatus
known_status none s = s
known_status (some t) s = elim t.status [
  | disconnected ↦ s
  | connecting ↦ connecting
  | connected ↦ connected
  | error ↦ error
]

unfoldable profile_status : List TunnelInfo → WgProfileView → TunnelStatus
profile_status tunnels p = known_status (find (λ t. t.id == p.id) tunnels) (here_status p.in_use_by)

abbrev elsewhere : Option WgProfileHolder → Option WgProfileHolder
elsewhere none = none
elsewhere (some h) = if h.this_device then none else some h

abbrev holder : List TunnelInfo → WgProfileView → Option WgProfileHolder
unfolding profile_status
holder tunnels p = if is_up (profile_status tunnels p) then none else elsewhere p.in_use_by

-- `heldFor`
abbrev held_for : (seconds : ℕ) → String
held_for seconds =
    let m = max 1 (seconds / 60) in
    let h = m / 60 in
    if ltb m 60
    then path (decimal m ∷ " min" ∷ [])
    else if ltb h 24
    then path (decimal h ∷ " h " ∷ decimal (m % 60) ∷ " min" ∷ [])
    else path (decimal (h / 24) ∷ " d " ∷ decimal (h % 24) ∷ " h" ∷ [])
