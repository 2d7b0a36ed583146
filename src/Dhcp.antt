-- ===== src/Dhcp.antt =====
-- The DHCP service: dhcp/.
pub mod Pool
pub mod Lease
pub mod Options
pub mod Packet
pub mod Reservation
pub mod Server
