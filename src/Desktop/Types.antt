-- ===== src/Desktop/Types.antt =====
-- client/frontend/src/types/index.ts. A list that the service may send as null is read with `?? []`
-- wherever the code uses it, so it is the empty list here.
use pro_identity_access.Base.{ℕ, String, Bool, Option, List}

pub data TunnelStatus : Type 0 where
  disconnected connecting connected error : TunnelStatus

pub record PeerInfo : Type 0 where
  pub public_key : String
  pub endpoint : String
  pub allowed_ips : List String
  pub persistent_keepalive : ℕ

pub record TunnelInfo : Type 0 where
  pub id : String
  pub name : String
  pub status : TunnelStatus
  pub addresses : List String
  pub dns : List String
  pub mtu : ℕ
  pub listen_port : ℕ
  pub private_key : String
  pub peers : List PeerInfo
  pub error : Option String
  pub is_managed : Option Bool

pub record StatsInfo : Type 0 where
  pub tunnel_id : String
  pub rx_bytes : ℕ
  pub tx_bytes : ℕ
  pub last_handshake : ℕ  -- Unix seconds

pub record ManagedSettings : Type 0 where
  pub server_url : String
  pub username : String
  pub is_admin : Bool
  pub logged_in : Bool
  pub vpn_name : String
  pub totp_enabled : Bool
  pub allow_personal_import : Option Bool

pub record ManagedLoginResult : Type 0 where
  pub username : String
  pub is_admin : Bool
  pub require_totp : Bool
  pub totp_enabled : Bool
  pub push_auth_enabled : Option Bool
  pub push_request_id : Option String

pub record ServerInfo : Type 0 where
  pub id : String
  pub name : String
  pub endpoint : String
  pub port : ℕ
  pub public_key : String
  pub subnet : String
  pub dns : Option String

pub record ServerStatus : Type 0 where
  pub server : ServerInfo
  pub connected : Bool
  pub tunnel_id : Option String
  pub connecting : Bool
  pub error : Option String
