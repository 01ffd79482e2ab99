-- ===== src/Template/Views.antt =====
-- include/redisdal/redis_operations.hpp: the operation views of the facade, one module per view.
pub mod Values
pub mod Hashes
pub mod Lists
pub mod Sets
pub mod SortedSets
pub mod Streams
