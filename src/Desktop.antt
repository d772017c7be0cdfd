-- ===== src/Desktop.antt =====
-- The desktop client's front end (client/frontend/src).
pub mod Types
pub mod Managed
pub mod Tunnels
pub mod Setup
pub mod Traffic
pub mod Update
pub mod OpenVpn
pub mod I18n
pub mod Bridge
pub mod Active
pub mod Format
pub mod Login
pub mod TotpPrompt
pub mod Main
pub mod Connections
pub mod Wizard
pub mod OpenVpnPanel
