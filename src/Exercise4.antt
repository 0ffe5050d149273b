-- ===== src/Exercise4.antt =====
-- network-programming-2013/exercise4
pub mod Sender
pub mod Sink
pub mod EchoServer
pub mod EchoClient
pub mod Udp
pub mod Turns
