-- ===== src/Enforcement.antt =====
-- services/enforcement/src: the firewall, the ARP spoofer, the IPv6 frames and the commands.
pub mod Firewall
pub mod Ipv6Block
pub mod Legacy
pub mod Proc
pub mod Spoofer
pub mod Consumer
