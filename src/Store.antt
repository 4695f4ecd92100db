-- ===== src/Store.antt =====
-- internal/store/postgres: the tables as lists of rows, in the order of insertion, and each query
-- or statement as a function of the tables. What PostgreSQL may do beside the statement (fail, or
-- answer with an error after the commit) is modelled where a call is made, in World.
pub mod Messages
pub mod Attempts
pub mod Elsewhere
pub mod Others
pub mod Recipients
pub mod Accounts
pub mod Policies
pub mod Webhooks
pub mod Defs
pub use Defs.*
