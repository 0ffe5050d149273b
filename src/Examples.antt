-- ===== src/Examples.antt =====
-- The theorems at concrete inputs.
mod Copying
mod Processes
mod Texts
mod Sharing
mod Agreeing
mod Sessions
mod Piping
mod Converting
mod Datagrams
mod Serving
mod Transfers
