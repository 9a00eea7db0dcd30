-- ===== src/Util.antt =====
-- util/: the utilities that the other directories call.
pub mod Status
pub mod Coding
pub mod Comparator
pub mod MultiQueue
pub mod Crc
pub mod Hash
pub mod Logging
pub mod Bloom
pub mod Cache
