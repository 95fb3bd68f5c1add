-- ===== src/Detection.antt =====
-- Detection of attacks (ingestion-service/internal/detection) over the events of the agents
-- (internal/events) and the alerts (internal/model). The shared maps are states that the functions
-- take and return; a function holds its mutex from its first read to its return, so calls by
-- several workers are a sequence of calls.
pub mod Model
pub mod Store
pub mod BruteForce
pub mod WebScan
pub mod Suppressor
pub mod Streaks
pub mod Keys
pub mod Pace
