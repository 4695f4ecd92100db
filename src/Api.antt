-- ===== src/Api.antt =====
-- internal/api: the handlers of the JSON API, and which role each route needs. A handler is an
-- action that answers with a response; what net/http and encoding/json make of a request (its method,
-- its headers, the decoded body or none where decoding fails, and the query values) is its argument.
-- Log lines and response headers are left out.
pub mod Defs
pub mod Messages
pub mod Recipients
pub mod Accounts
pub mod Readiness
pub mod Webhooks
pub mod Routes
pub mod Laws
pub mod Isolation
pub mod Reads
pub mod Receipt
