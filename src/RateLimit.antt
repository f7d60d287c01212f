-- ===== src/RateLimit.antt =====
-- Rate limiting: backend/crates/shared/kernel/src/rate_limit.rs (the types and the store in
-- memory) and backend/crates/shared/cache/src/limiter.rs (the limiter over Redis, and the budgets).
pub mod Types
pub mod Memory
pub mod Resolver
pub mod Float64
pub mod Redis
mod Examples
