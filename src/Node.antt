-- ===== src/Node.antt =====
-- The daemons together: what passes from one to the next.
pub mod ChatRoute
pub mod Stranded
pub mod Overlap
pub mod FileRoute
pub mod Download
pub mod Provision
pub mod Reported
pub mod Panics
pub mod System
pub mod Protocol
pub mod Joined
pub mod Authentic
pub mod Registered
pub mod History
pub mod Buses
pub mod Main
pub mod Started
