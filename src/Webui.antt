-- ===== src/Webui.antt =====
-- The administrators' web interface (server/webui/src).
pub mod Types
pub mod Rows
pub mod Auth
pub mod Client
pub mod Theme
pub mod Topology
pub mod History
pub mod System
pub mod ServerConfig
pub mod People
pub mod Profiles
