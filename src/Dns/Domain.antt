-- ===== src/Dns/Domain.antt =====
-- dns/resolver.go (canonicalizeDomainForMatching) and dns/egressdomains.go (the patterns of egress
-- domains): how names are brought into a form, and when a name matches a pattern.
mod Canonical
mod Patterns
pub mod Boundaries
pub mod Synced
unfoldable pub use Canonical.*
unfoldable pub use Patterns.*
