-- ===== src/Examples.antt =====
-- The theorems at concrete inputs, one module for each part of the program.
pub mod Streams
pub mod Sessions
pub mod Protocol
pub mod Tunnels
pub mod Greeters
pub mod Requests
pub mod Runs
pub mod Owners
pub mod Servers
pub mod Settings
