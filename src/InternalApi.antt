-- ===== src/InternalApi.antt =====
-- packages/core/src/internal-api: the requests of the portal to the core.
pub mod Idempotency
pub mod Access
pub mod Remote
pub mod Sessions
pub mod CommandRoutes
