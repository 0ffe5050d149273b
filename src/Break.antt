-- ===== src/Break.antt =====
-- network-programming-2013/break-exercise
pub mod Session
pub mod Client
