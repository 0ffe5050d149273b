-- ===== src/Exercise1.antt =====
-- network-programming-2013/exercise1
pub mod Agreement
pub mod Doubler
pub mod DoublerSyscall
pub mod Options
pub mod FileStat
pub mod ProcessInfo
