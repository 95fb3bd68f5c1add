-- ===== src/Dashboard.antt =====
-- The dashboard of frontend/src/App.jsx: its state and its event handlers.
pub mod State
pub mod Console
pub mod Fetch
pub mod Feed
pub mod Counters
pub mod Session
pub mod Timeline
pub mod Filters
pub mod Views
