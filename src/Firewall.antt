-- ===== src/Firewall.antt =====
-- firewall/: the rule tables of the iptables manager and the rules that it keeps in the kernel.
pub mod Types
pub mod Specs
pub mod Manager
pub mod Acl
pub mod Kernel
pub mod Chains
pub mod Vnat
pub mod Egress
pub mod Routing
pub mod Ingress
pub mod Nft
