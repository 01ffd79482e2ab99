-- ===== src/CmdOps.antt =====
-- src/redis_cmd_ops.cpp: every command builds its argument vector and hands it to `cmd_execv`.
pub mod Options
pub mod Arguments
pub mod Vectors
pub mod Keys
pub mod Strings
pub mod Hashes
pub mod Lists
pub mod Sets
pub mod SortedSets
pub mod Streams
pub mod Scripts
pub mod Accepts
pub mod Layout
pub mod AddLayout
pub mod ScriptKeys
