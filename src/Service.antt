-- ===== src/Service.antt =====
-- internal/service/message_service.go: the message service. Its configuration is a record; the Go
-- values `s.store` and `s.queue` are the database and the queue of the World, and what the code
-- finds out by type assertions (which optional interfaces they have) are fields.
pub mod Helpers
pub mod Defs
pub mod Policy
pub mod Queueing
pub mod Failover
pub mod Process
pub mod Retry
pub mod Recovery
pub mod Events
pub mod Accounts
pub mod Incident
pub mod Apart
