-- ===== src/NetQueue.antt =====
-- src/netqueue: the event queue over file descriptors.
pub mod Element
pub mod Kernel
pub mod Process
pub mod Write
pub mod Transfer
pub mod Tests
pub mod Queue
