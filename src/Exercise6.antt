-- ===== src/Exercise6.antt =====
-- network-programming-2013/exercise6, less the copy of the UNP library
pub mod Datagram
pub mod Capacity
pub mod SocketOptions
