-- ===== src/Dns.antt =====
-- The DNS side of the client (dns/): matching of domain names, the choice of nameservers, the
-- local records, the request handler and the cache of recent answers.
pub mod Types
pub mod Domain
pub mod BestMatch
pub mod Servers
pub mod Records
pub mod QueryCache
pub mod Resolver
