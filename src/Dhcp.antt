-- ===== src/Dhcp.antt =====
-- The DHCP server: lib/dhcpConfigTypes.ts, dhcpConfigParse.ts, dhcpConfigForm.ts, ipv4.ts and
-- dhcpPoolUtilization.ts.
pub mod Types
pub mod Parse
pub mod Form
pub mod Ipv4
pub mod Leases
