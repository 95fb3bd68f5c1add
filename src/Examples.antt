-- ===== src/Examples.antt =====
-- The theorems at concrete inputs: the page, the detectors, the services, the HTTP API and the agent.
pub mod Pooled
pub mod Page
pub mod Panels
pub mod Detectors
pub mod Services
pub mod Workers
pub mod Requests
pub mod Sorting
pub mod Lines
pub mod Live
pub mod Tables
pub mod Analytics
pub mod Server
pub mod Drawn
pub mod Shown
