-- ===== src/Desktop/OpenVpn.antt =====
-- client/frontend/src/stores/useOpenVPNStore.ts: the OpenVPN sessions.
pub mod Sessions
use Prim.Native.Char.{Char, code}
use Prim.Native.String
use Prim.Native.String.{[], ◌∷◌}
use pro_identity_access.Base.{
  ℕ, String, Bool, true, false, ◌&&◌, ◌||◌, Option, none, some, List, Dict, insert, ◌==◌, or_else,
  truthy, leb, nat_eq, if◌then◌else◌,
}
use pro_identity_access.Base
use text.Mathlib.Text.{starts_with}
use pro_identity_access.Async.{Async, catch, pure, set, ◌>>=◌}
use pro_identity_access.Desktop.Types.{TunnelInfo, TunnelStatus, connected, connecting}

-- `OpenVPNStatus` of client/frontend/src/wailsbridge.ts
pub record OpenVpnStatus : Type 0 where
  pub id : String
  pub name : String
  pub status : TunnelStatus
  pub dev_type : String
  pub ip : Option String
  pub rx_bytes : ℕ
  pub tx_bytes : ℕ
  pub error : Option String
  pub error_code : Option String
  pub remote : Option String
  pub networks : Option (List String)
  pub connected_at : Option ℕ

abbrev pub ovpn_prefix : String
ovpn_prefix = "ovpn:"

-- The two translations that an error code selects.
pub record ErrorTexts : Type 0 where
  pub key_passphrase_required : String
  pub key_passphrase_wrong : String

abbrev is_code : String → Option String → Bool
is_code c none = false
is_code c (some d) = d == c

unfoldable pub ovpn_error_text : ErrorTexts → OpenVpnStatus → Option String
ovpn_error_text texts s =
    if is_code "key_passphrase_required" s.error_code
    then some texts.key_passphrase_required
    else if is_code "key_passphrase_wrong" s.error_code
    then some texts.key_passphrase_wrong
    else s.error

unfoldable pub is_openvpn_tunnel : Option TunnelInfo → Bool
is_openvpn_tunnel none = false
is_openvpn_tunnel (some t) = starts_with t.id ovpn_prefix

-- `\s` of the strings at hand: the blanks of ASCII.
abbrev is_space : Char → Bool
is_space c = nat_eq (code c) 32 || (leb 9 (code c) && leb (code c) 13)

-- `\s*\((TCP|UDP)\)$` at the beginning of a text.
unfoldable pub is_suffix : String → Bool
is_suffix [] = false
is_suffix (c ∷ s) = (is_space c && is_suffix s) || (c ∷ s) == "(TCP)" || (c ∷ s) == "(UDP)"

-- `s.replace(/\s*\((TCP|UDP)\)$/, '')`: the first place at which the rest matches is cut off.
unfoldable pub strip_protocol : String → String
strip_protocol [] = []
strip_protocol (c ∷ s) = if is_suffix (c ∷ s) then [] else c ∷ strip_protocol s

-- `s.ip ? [s.ip] : []`
abbrev present : Option String → List String
present none = Base.[]
present (some s) = if truthy s then Base.◌∷◌ s Base.[] else Base.[]

unfoldable pub openvpn_as_tunnel : ErrorTexts → OpenVpnStatus → TunnelInfo
unfolding ovpn_error_text strip_protocol
openvpn_as_tunnel texts s = record {
  id = String.◌++◌ ovpn_prefix s.id;
  name = s.name;
  status = s.status;
  addresses = present s.ip;
  dns = Base.[];
  mtu = 0;
  listen_port = 0;
  private_key = "";
  peers =
      Base.◌∷◌
        (record {
          public_key = "";
          endpoint = strip_protocol (or_else s.remote "");
          allowed_ips = or_else s.networks Base.[];
          persistent_keepalive = 0;
        })
        Base.[];
  error = ovpn_error_text texts s;
  is_managed = none;
}

abbrev pub is_up : TunnelStatus → Bool
is_up connected = true
is_up connecting = true
is_up _ = false

abbrev pub is_live : OpenVpnStatus → Bool
is_live s = is_up s.status

pub record OpenVpnStore : Type 0 where
  pub sessions : Dict OpenVpnStatus

unfoldable pub index_from : List OpenVpnStatus → Dict OpenVpnStatus → Dict OpenVpnStatus
index_from Base.[] next = next
index_from (Base.◌∷◌ s list) next = index_from list (insert s.id s next)

unfoldable pub load :
    {W : Type 0}
    → Async (OpenVpnStore × W) (List OpenVpnStatus)
    → Async (OpenVpnStore × W) (Unit {0})
unfolding index_from
load list_sessions =
    catch (do list ← list_sessions; set (λ s. record s { sessions = index_from list Base.[] }))
      λ _. pure tt

unfoldable pub apply : OpenVpnStatus → OpenVpnStore → OpenVpnStore
apply s store = record store { sessions = insert s.id s store.sessions }
