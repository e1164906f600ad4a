-- ===== src/BlackBox.antt =====
-- src/blackbox: the packet engine of a switch, one module for each of its files.
pub mod Ipv4
pub mod RoutingTable
pub mod AgentRegistry
pub mod Config
pub mod Engine
pub mod Tests
