-- ===== src/Exercise5.antt =====
-- network-programming-2013/exercise5, less the copy of the UNP library
pub mod Echo
pub mod Shutdown
pub mod Backlog
