-- ===== src/DhcpService.antt =====
-- services/dhcp/src: the address pool and the DHCPv4 server.
pub mod Pool
pub mod Server
