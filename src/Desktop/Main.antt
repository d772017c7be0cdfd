-- ===== src/Desktop/Main.antt =====
-- client/frontend/src/App.tsx: the desktop's main view, below what it draws.
pub mod Focus
pub mod State
pub mod Events
pub mod Collect
pub mod Connect
pub mod Actions
