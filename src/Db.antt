-- ===== src/Db.antt =====
-- db/: the database proper.
pub mod Format
pub mod WriteBatch
pub mod Log
pub mod VersionEdit
pub mod VersionSet
pub mod FileName
pub mod DbIter
