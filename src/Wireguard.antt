-- ===== src/Wireguard.antt =====
-- The WireGuard side of the client (wireguard/): the health monitor of the internet gateway, the
-- failover of egress routes, and the peers that are set on the interface.
pub mod Types
pub mod Igw
pub mod Egress
pub mod Peers
