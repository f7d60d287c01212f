-- ===== src/Lib.antt =====
-- The backend of a customer-service chat: many tenants, their members, an assistant that answers
-- customers and calls tools, and a platform's own staff. This library models the decisions that
-- the backend makes apart from its databases and its network. Paths are from the repository's
-- root; the Rust crates lie in backend/crates.
--
-- The parts, and the files that model them:
-- - Base: tests, lists, texts and maps that the others share. A text is the list of its code
--   points, a hash map an association list with one entry for a key.
-- - Authz: backend/crates/modules/authz. Role has `TenantRole` and `PlatformRole`, Permission the
--   permissions and their codes, Matrix the lists of matrix.rs, Guard the middleware and the guard
--   of guard.rs, as functions of the request's extensions.
-- - RateLimit: backend/crates/shared/kernel/src/rate_limit.rs (Types, Memory) and
--   backend/crates/shared/cache/src/limiter.rs (Redis, Resolver). A limiter is a state that a check
--   takes and gives back. The replies of Redis and the clocks are arguments. Float64 states what
--   the weighing uses of IEEE 754, and an instance over whole numbers shows that it can hold.
-- - Tools: backend/crates/modules/tools. Validation is `validate` and Address
--   `url_parse_and_validate` of executor.rs, Policy is policy.rs with the catalog of registry.rs,
--   Approval is approval.rs. In Approval the two statements of a sweep are functions of their
--   own, so that other operations can come between; `decide` is one function, of which a flag
--   says whether the transaction after its update commits.
-- - Integrations: backend/crates/modules/integrations. Webhook is `receive_webhook`, one function
--   for each stretch of its branches; Tables are the rows that it reads and writes, with a flag for
--   each call of the database that may fail; Crypto is crypto.rs over the primitives of the crates.
-- - Billing: backend/crates/modules/billing/src/enforcement.rs and the queries that it uses.
-- - Providers: backend/crates/ai-providers. Contract and Registry are contract.rs and registry.rs, Sse
--   is sse.rs. A provider's client is a function of the world outside.
-- - Ai: backend/crates/modules/ai. AgentRules is agent_rules.rs; Resolution is resolution.rs; Service
--   is `run_attempts_traced` of service.rs and Completion `complete` and `complete_with_override`;
--   Prompt is prompt_validate.rs, with offsets in bytes as there.
-- - Tenancy: backend/crates/modules/tenancy. Ranks and Members are the ranks and `update_member` of
--   members.rs, Roster the rows and events that they read and write. Invitations is the acceptance and
--   the revocation of invitations.rs; what either reads before its transaction is an argument, so that
--   others can come between.
-- - Escalations: backend/crates/modules/escalations. Presence is the registry of connected members of
--   presence.rs. Rows are the tables that the routing reads and writes, Transaction its monad, Views what
--   the API shows of a row. Candidates is `select_candidate_in_tx` of queries.rs; Statements, Routing,
--   Claim and Drain are routing.rs with `assign_in_tx` and `set_escalated_in_tx` of the conversations;
--   Closing is the outbox's consumer in events.rs. Consistent, Kept and Steps are about any sequence of
--   these transactions.
-- - Idempotency: backend/crates/shared/kernel/src/idempotency.rs. Requests interleave between the
--   look-up of the key, the service and the storing of the answer.
--
-- The parts meet where the backend's do: the guard reads the matrix, the limiter on Redis falls
-- back to the store in memory, `receive_webhook` takes any limiter, the validation of a call works
-- on the tools that the policy resolves, a completion runs over the registry of the providers, and a
-- member's handler reads the roles and the permissions.
--
-- Numbers: a u32 or u64 that is counted up wraps around as written out (`% 2 ^ 32`); durations are
-- nanoseconds. Usage in Billing is a sum without overflow. An identifier (a UUID) is a number. Every
-- loop is over a list, but that of Sse over its buffer, which runs on the buffer's length as fuel: each
-- frame that it takes off makes the buffer at least two characters shorter.
--
-- Not modelled: the engine that generates answers and streamed completions, the clients that translate
-- to the providers' HTTP interfaces, the channels, knowledge, the widgets
-- and the administration, whose modules are mostly queries and calls of other services; the execution
-- of a tool's call; metrics and logs; and poisoned locks. Two checks of the rate
-- limiter in memory never overlap, as its lock ensures; what happens between two statements of a
-- database is modelled for approvals, invitations and the draining of escalations.
pub mod Base
pub mod Authz
pub mod RateLimit
pub mod Tools
pub mod Integrations
pub mod Billing
pub mod Providers
pub mod Ai
pub mod Tenancy
pub mod Escalations
pub mod Idempotency
