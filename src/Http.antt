-- ===== src/Http.antt =====
-- The HTTP API of ingestion-service: the API keys and the handler of /alerts, the handler of /logs
-- with its validator and queue, and the rate limiter (internal/auth, internal/handler,
-- internal/middleware, internal/validator, internal/queue).
pub mod Alerts
pub mod Groups
pub mod Analytics
pub mod Ingest
pub mod RateLimit
pub mod Middleware
pub mod Server
