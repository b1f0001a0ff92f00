-- ===== src/Rpc.antt =====
-- The crate of the RPC interface between clients and the node: rpc/src.
pub mod Ids
pub mod Failure
pub mod Messages
pub mod Client
