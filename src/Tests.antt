-- ===== src/Tests.antt =====
-- Applications of the theorems at concrete values, and runs of the definitions.
pub mod Server
pub mod Commands
pub mod Connection
pub mod Values
pub mod Stores
pub mod Facade
pub mod Handshake
pub mod Collected
pub mod Streams
