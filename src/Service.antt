-- ===== src/Service.antt =====
-- The services of ingestion-service/internal: the hub of the WebSocket clients (websocket), the
-- alert service with its repository (service, repository), the workers (service/worker.go), alone
-- and side by side, and alerts as JSON (model).
pub mod Hub
pub mod Alerts
pub mod Worker
pub mod Json
pub mod Tables
pub mod Slack
pub mod Pool
pub mod Pipeline
