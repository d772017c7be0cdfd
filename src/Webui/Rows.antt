-- ===== src/Webui/Rows.antt =====
-- server/webui/src/api/client.ts: the rows of the reports that the server's API answers.
use pro_identity_access.Base.{ℕ, String, Bool, Option, List}
use pro_identity_access.Webui.Types.{ResourceType}

pub data VpnEventType : Type 0 where
  connected disconnected : VpnEventType

-- The nodes and edges of the access topology.
pub record Person : Type 0 where
  pub id : String
  pub username : String
  pub is_admin : Bool

pub record BundleNode : Type 0 where
  pub id : String
  pub name : String

pub record ResourceNode : Type 0 where
  pub id : String
  pub name : String
  pub ip_address : String
  pub type : ResourceType
  pub mask : Option ℕ

pub record ServerNode : Type 0 where
  pub id : String
  pub name : String
  pub subnet : String

pub record Edge : Type 0 where
  pub from : String
  pub to : String

pub record Topology : Type 0 where
  pub people : List Person
  pub bundles : List BundleNode
  pub resources : List ResourceNode
  pub servers : List ServerNode
  pub person_server : List Edge
  pub server_bundle : Option (List Edge)
  pub server_allowed_bundle : Option (List Edge)
  pub user_bundle : List Edge
  pub bundle_resource : List Edge

pub record TrafficTopRow : Type 0 where
  pub key : String
  pub label : String
  pub bytes_tx : ℕ
  pub bytes_rx : ℕ
  pub conns : ℕ

pub record TrafficSummary : Type 0 where
  pub bytes_tx : ℕ
  pub bytes_rx : ℕ
  pub conns : ℕ

pub record DenialRow : Type 0 where
  pub id : ℕ
  pub first_ts : String
  pub last_ts : String
  pub count : ℕ
  pub user_id : Option String
  pub username : Option String
  pub src_ip : String
  pub dst_ip : String
  pub dst_port : Option ℕ
  pub proto : String

pub record AuditRow : Type 0 where
  pub id : String
  pub ts : String
  pub actor_user_id : Option String
  pub actor_username : Option String
  pub method : String
  pub path : String
  pub action : Option String
  pub target_type : Option String
  pub target_id : Option String
  pub target_label : Option String
  pub status_code : ℕ
  pub success : ℕ
  pub error_message : Option String
  pub ip : Option String
  pub user_agent : Option String
  pub detail : Option String

pub record VpnEvent : Type 0 where
  pub id : String
  pub event_type : VpnEventType
  pub reason : Option String
  pub user_id : Option String
  pub username : Option String
  pub email : Option String
  pub session_id : String
  pub server_id : Option String
  pub server_name : Option String
  pub assigned_ip : String
  pub source_ip : Option String
  pub device_id : Option String
  pub device_name : Option String
  pub user_agent : Option String
  pub created_at : String

pub record ReachRow : Type 0 where
  pub resource_id : String
  pub resource_name : String
  pub ip_address : String
  pub type : ResourceType
  pub mask : Option ℕ
  pub ports : Option String
  pub bundle_id : String
  pub bundle_name : String
  pub server_id : String
  pub server_name : String
  pub server_subnet : String
