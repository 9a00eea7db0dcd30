-- ===== src/Tests.antt =====
-- Runs of the models on concrete inputs.
mod Util
mod Table
mod Db
mod Files
mod Iterators
mod Versions
mod Caches
