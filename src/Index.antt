-- ===== src/Index.antt =====
-- storage/index/bplus_tree.cpp: the B+ tree over the pages of an index file.
pub mod Key
pub mod Array
pub mod Node
pub mod Leaf
pub mod Internal
pub mod Tree
pub mod Insert
pub mod Delete
pub mod Scan
pub mod Validate
