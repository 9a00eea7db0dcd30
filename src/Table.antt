-- ===== src/Table.antt =====
-- table/: the files that hold sorted tables.
pub mod FilterBlock
pub mod Block
pub mod Format
pub mod Builder
pub mod Iterator
pub mod Merger
