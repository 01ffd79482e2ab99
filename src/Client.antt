-- ===== src/Client.antt =====
-- src/redis_client.cpp: the string client. Each method sends its command through the command layer
-- and interprets the reply.
pub mod Requests
pub mod Keys
pub mod Strings
pub mod Hashes
pub mod Lists
pub mod Sets
pub mod SortedSets
pub mod Streams
pub mod Scripts
pub mod Methods
pub mod Contract
pub mod Safe
