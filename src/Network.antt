-- ===== src/Network.antt =====
-- internal/network: the firewall of a sandbox, its published ports, and the names of its chains.
pub mod ShortId
pub mod Tables
pub mod Firewall
pub mod Dnat
pub mod BridgeNetfilter
pub mod Nameservers
pub mod Cni
