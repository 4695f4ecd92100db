-- ===== src/Lib.antt =====
-- maild takes messages over its API, keeps them in PostgreSQL, and sends them through an SMTP relay from
-- a queue in Redis; the providers' webhooks come back as events that suppress or unsubscribe recipients.
--
-- How the parts interact. The message service (internal/service/message_service.go) is the core:
-- QueueMessage checks a workspace's policy and the rate limits, writes the message and puts its id into
-- the queue; a worker (internal/worker) takes ids from the queue and calls ProcessOne, which claims the
-- message, sends it and records the outcome, or puts it back with a delay; RecoverQueue repairs what a
-- crash left behind; ProcessWebhookEvent and ReplayWebhookDeadLetters apply the providers' events.
--
-- Which file models which part:
--   Base, Text, Decimal: what the source uses of Go's integers, lists, `strings` and `strconv`.
--   Domain: internal/domain, the records; the statuses are enumerations.
--   Store: internal/store/postgres/postgres.go and webhook_atomic.go, over the tables of
--     internal/migrate/sql. A statement is a function of the tables `Db`, and of the time where it says
--     now(). Store/Messages, Store/Recipients, Store/Accounts, Store/Policies and Store/Webhooks follow
--     the tables, with the unique keys and ON CONFLICT written out. A transaction is one function.
--   Queue: internal/queue/redis_queue.go; the popNext script is atomic, so it is one function.
--     Queue/Abstract has the bag with due times that a client of the queue sees.
--   Smtp: internal/smtpclient/smtpclient.go. The answers of a relay are a `Server`, a value that the
--     environment chooses, and the dialog is the trace of the commands that go out.
--   Sanitize: internal/sanitize/error.go.
--   World: the database, the queue, the rate counters, the clock and the mail that the relays took over.
--     A Go function with effects is an `Act`, from a `World` to a result or an error and a `World`. Each
--     call of PostgreSQL or Redis ends as the next `Fault` says: fine, refused before it had an effect,
--     or lost after it.
--   World/Keeps, World/Ends, World/From, World/Ensures, World/Grants: the rules by which the proofs go through an
--     action step by step.
--   Service: internal/service/message_service.go. Service/Defs has MessageService and the calls that
--     several methods make, Service/Helpers the functions at the end of the file, Service/Policy the
--     workspace policies, Service/Queueing QueueMessage with internal/ratelimit/redis_limiter.go,
--     Service/Process ProcessOne and scheduleRetryState, Service/Failover tryAutoFailover, Service/Retry
--     RetryMessages, Service/Recovery RecoverQueue, and Service/Events the webhook events.
--     Service/Accounts has the SMTP accounts and the timeline of a message, Service/Incident the
--     onboarding checklist and the incident bundle.
--   Login: internal/auth/ratelimit.go, the limiter of failed sign-ins, with its own two maps of keys.
--   Session: internal/auth/session.go, the sessions of users, with the expiry of their keys.
--   ApiKey: internal/auth/apikey.go, who a request speaks for and which workspace it may act on.
--   Config: internal/config/config.go, Load over an environment and Validate as a list of checks.
--   DomainCheck: internal/domaincheck/checker.go and internal/service/domain_service.go.
--   Webhook: internal/webhooksig/verifier.go, and below it internal/api/webhook_event_parser.go:
--     Webhook/Json and Webhook/Values a decoded document, Webhook/Classify the kinds of events,
--     Webhook/Parse the parser.
--   Api: internal/api/http.go and access.go. A handler is an action that takes the principal, the
--     method, and the query or the decoded body (none where decoding fails), and answers with a
--     `Response`; Api/Routes has the routes with their roles.
--     Api/Laws, Api/Isolation, Api/Reads and Api/Receipt hold the theorems.
--   Laws and the other files below a component hold its theorems; Examples holds concrete runs.
--
-- The model's choices. A key of the database and an instant (in nanoseconds, 0 the zero time) are
-- natural numbers; an instant is taken to be later than any duration that is subtracted from it. The two backoff
-- functions compute on 64-bit patterns. ToLower maps the ASCII letters only; TrimSpace knows all of
-- unicode.IsSpace; where an error's text is cut at 240 bytes, U+FFFD stands for the bytes of a character
-- that the cut splits, which the database refuses: there its fault is `refused`. SHA-256, json.Marshal of a map, and sealing (AES-GCM over JSON) are fields of
-- MessageService that the environment fills. Members of a sorted set with one score are in the order of
-- their decimal texts. The digits of a number n are computed on fuel n + 1, which is enough since each
-- step divides by ten. Every other function is structurally recursive.
--
-- Not modelled: the pages of the UI, analytics and billing, the CSV export and the metering summary, which
-- only read; users, the sign-in handlers and the routes by which users manage their keys, also that a
-- request with such a key sets its last_used_at; migrations and process start; the texts of a checklist
-- item that its ID determines; headers of responses, logs; the expiry of the Redis keys of the hourly
-- windows; the pauses between two attempts at a webhook event; deadlines of SMTP connections.
pub mod Base
pub mod Text
pub mod Decimal
pub mod Domain
pub mod Store
pub mod Queue
pub mod Smtp
pub mod Sanitize
pub mod World
pub mod Service
pub mod Login
pub mod ApiKey
pub mod Config
pub mod Webhook
pub mod Api
pub mod DomainCheck
pub mod Session
mod Examples
