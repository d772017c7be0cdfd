-- ===== src/Tests.antt =====
-- The theorems at concrete inputs.
mod Managed
mod Client
mod Web
mod Active
mod Topology
mod Main
mod Login
mod Connections
mod History
mod Panel
