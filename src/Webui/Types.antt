-- ===== src/Webui/Types.antt =====
-- server/webui/src/api/client.ts: the answers of the server's API, as its interfaces name them. A
-- field that may be missing or null is an Option, and a date is the text that the server sends.
use pro_identity_access.Base.{ℕ, ℤ, String, Bool, Option, List}

pub data ResourceType : Type 0 where
  host network : ResourceType

pub data Severity : Type 0 where
  warn error info : Severity

pub record User : Type 0 where
  pub id : String
  pub username : String
  pub email : String
  pub first_name : String
  pub last_name : String
  pub totp_enabled : Bool
  pub is_admin : Bool
  pub is_active : Bool
  pub created_at : String
  pub permissions : Option (List String)

pub record PermDef : Type 0 where
  pub key : String
  pub label : String
  pub description : String
  pub category : String

pub record OpenVpnProfile : Type 0 where
  pub id : String
  pub name : String
  pub autofill_name : Option String
  pub description : Option String
  pub requires_totp : Bool
  pub auth_user_pass : Bool
  pub dev_type : String
  pub allow_custom_ip : Bool
  pub assigned_count : ℕ
  pub created_at : String

pub record OpenVpnAssignment : Type 0 where
  pub user_id : String
  pub username : String
  pub email : String
  pub custom_ip : Option String
  pub assigned_at : String

pub record WgHolder : Type 0 where
  pub name : String
  pub username : String
  pub device : String
  pub held_seconds : ℕ

pub record WgProfile : Type 0 where
  pub id : String
  pub name : String
  pub description : Option String
  pub shared : Bool
  pub address : Option String
  pub endpoint : Option String
  pub assigned_count : ℕ
  pub in_use_by : Option WgHolder

pub record WgAssignment : Type 0 where
  pub user_id : String
  pub username : String
  pub email : String
  pub assigned_at : String

pub record Passkey : Type 0 where
  pub id : String
  pub user_id : String
  pub name : String
  pub created_at : String

pub record Group : Type 0 where
  pub id : String
  pub name : String
  pub description : Option String
  pub created_at : String
  pub permissions : Option (List String)

pub record Resource : Type 0 where
  pub id : String
  pub name : String
  pub ip_address : String
  pub type : ResourceType
  pub mask : Option ℕ
  pub ports : Option String
  pub description : Option String
  pub created_at : String

pub record ResourceGroup : Type 0 where
  pub id : String
  pub name : String
  pub description : Option String
  pub created_at : String

pub record Session : Type 0 where
  pub id : String
  pub server_id : Option String
  pub server_name : Option String
  pub assigned_ip : String
  pub source_ip : Option String
  pub device_id : Option String
  pub device_name : Option String
  pub user_agent : Option String
  pub created_at : String
  pub last_keepalive : String

pub record AdminSession : Type 0 where
  pub id : String
  pub server_id : Option String
  pub assigned_ip : String
  pub source_ip : Option String
  pub device_id : Option String
  pub device_name : Option String
  pub user_agent : Option String
  pub created_at : String
  pub last_keepalive : String
  pub username : String
  pub email : String
  pub server_name : Option String

pub record UserConfig : Type 0 where
  pub id : String
  pub name : String
  pub created_at : String
  pub user_id : String
  pub username : String
  pub email : String

pub record Installation : Type 0 where
  pub id : String
  pub device_name : String
  pub user_id : Option String
  pub username : String
  pub is_active : Bool
  pub last_seen : Option String
  pub created_at : String

pub record WgServerEndpoint : Type 0 where
  pub id : String
  pub server_id : String
  pub name : String
  pub host : String
  pub port : ℤ
  pub priority : ℤ
  pub enabled : Bool
  pub last_resolved_ip : Option String
  pub last_resolved_at : Option String

pub record WgServer : Type 0 where
  pub id : String
  pub name : String
  pub endpoint : String
  pub port : ℤ
  pub interface_name : String
  pub public_key : Option String
  pub subnet : String
  pub dns : Option String
  pub external : Bool
  pub is_active : Bool
  pub running : Option Bool
  pub endpoints : Option (List WgServerEndpoint)
  pub created_at : String

pub record WgServerEndpointInput : Type 0 where
  pub name : String
  pub host : String
  pub port : ℤ
  pub priority : ℤ
  pub enabled : Option Bool

pub record Diagnostic : Type 0 where
  pub id : String
  pub severity : Severity
  pub title : String
  pub detail : Option String
  pub subject : Option String
