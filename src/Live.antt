-- ===== src/Live.antt =====
-- From the worker and the hub of ingestion-service/internal to the page of frontend/src/App.jsx.
pub mod Page
pub mod Shown
pub mod Pooled
pub mod Stale
pub mod Typed
pub mod Rendered
pub mod Data
pub mod Supplied
pub mod Panels
pub mod Drawn
pub mod Lines
