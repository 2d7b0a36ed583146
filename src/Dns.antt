-- ===== src/Dns.antt =====
-- The DNS engine of dns_engine/.
pub mod Models
pub mod Cache
pub mod Parser
pub mod Response
pub mod Upstream
pub mod Metrics
pub mod Blocklist
pub mod Filters
pub mod QueryLog
pub mod Resolver
pub mod Server
pub mod Transport
