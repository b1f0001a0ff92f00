-- ===== src/Stormd.antt =====
-- The managing daemon: src/stormd.
pub mod Daemons
pub mod Runtime
pub mod Start
pub mod Scheduler
pub mod Tasks
pub mod Handlers
pub mod Pool
pub mod Frame
pub mod Waiting
pub mod Rule
pub mod Apps
pub mod Known
pub mod Met
pub mod Posts
pub mod Iteration
pub mod Panics
pub mod Served
pub mod Drain
pub mod Jobs
pub mod Fifo
pub mod Sends
pub mod Arrival
