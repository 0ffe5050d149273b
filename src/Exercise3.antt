-- ===== src/Exercise3.antt =====
-- network-programming-2013/exercise3
pub mod Overlap
pub mod Filters
pub mod ExitStatus
pub mod Fifo
pub mod Session
pub mod Server
pub mod Client
pub mod Counter
