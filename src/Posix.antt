-- ===== src/Posix.antt =====
-- The system interface that every program of the course uses: system calls and the C library.
pub mod Call
pub mod Checked
pub mod Stuck
pub mod FileLock
pub mod Run
pub mod Loop
pub mod Libc
pub mod Io
pub mod Relay
pub mod Program
pub mod Writes
pub mod Answers
pub mod Echo
pub mod Connection
pub mod Forward
pub mod Files
pub mod Finish
pub mod Sends
pub mod Silent
pub mod Protocol
pub mod Boot
