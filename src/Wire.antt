-- ===== src/Wire.antt =====
-- listener/canary/{ethernet,arp,icmp,ipv4,tcp,udp}: the packet formats that the canary reads and writes.
pub mod Udp
pub mod Arp
pub mod Ethernet
pub mod Icmp
pub mod Ipv4
pub mod Tcp
mod Examples
