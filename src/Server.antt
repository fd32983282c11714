-- ===== src/Server.antt =====
-- The gateway server (crates/server/src).
pub mod Gateway
pub mod RateLimit
pub mod KeyStore
pub mod MetaStore
pub mod Registry
pub mod Tickets
pub mod Sessions
pub mod Enrollment
pub mod Roles
pub mod Router
pub mod Audit
pub mod Tail
pub mod Ws
