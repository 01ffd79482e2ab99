-- ===== src/SyncConnection.antt =====
-- src/sync_connection.cpp: the hiredis executor.
pub mod Convert
pub mod Transport
pub mod Sound
pub mod Contract
pub mod Handshake
