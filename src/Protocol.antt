-- ===== src/Protocol.antt =====
-- src/protocol: the packet header and the dispatch of packets to their handlers.
pub mod Header
pub mod Dispatch
pub mod Mip
pub mod Samples
pub mod Tests
