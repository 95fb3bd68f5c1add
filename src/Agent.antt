-- ===== src/Agent.antt =====
-- The log agent (log-agent): it reads the lines of two log files, makes events of them and sends each
-- event to the ingestion service over HTTP and over Kafka.
pub mod Regex
pub mod Auth
pub mod Nginx
pub mod Send
pub mod Traffic
