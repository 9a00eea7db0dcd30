-- ===== src/Table/Block.antt =====
-- table/block_builder.cc and table/block.cc: blocks of sorted entries, whose keys share a prefix with
-- the key before them.
pub mod Builder
pub mod Iter
pub mod Seek
pub mod Entry
pub mod Search
pub mod Scan
