-- ===== src/Desktop/Bridge.antt =====
-- client/frontend/src/wailsbridge.ts: the bridge from the desktop's stores to the local service.
pub mod Bindings
pub mod Mocks
pub mod Calls
pub mod Rounds
