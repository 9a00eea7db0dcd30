-- ===== src/Table/FilterBlock.antt =====
-- table/filter_block.h and table/filter_block.cc: the filter block of a table. Each range of 2 KB of
-- data blocks has one filter, which is stored in several units that can be loaded one by one.
pub mod Builder
pub mod Reader
pub mod Units
pub mod Content
pub mod Groups
pub mod Generate
pub mod Run
pub mod Contents
pub mod Served
use rally_db.Prelude.{ℕ, ◌+◌, ◌^◌, List, Bool}
use rally_db.Util.Coding.{Bytes}

-- The interface of include/leveldb/filter_policy.h. `CreateFilter` appends to `*dst`, and a policy may
-- leave other keys in the array that it is given: the result is both.
pub record FilterPolicy : Type 0 where
  pub create_filter : List Bytes → Bytes → ℕ → Bytes × List Bytes
  pub key_may_match : Bytes → Bytes → ℕ → Bool

abbrev pub load_filter_units_number : ℕ
load_filter_units_number = 2

abbrev pub all_filter_units_number : ℕ
all_filter_units_number = 6

abbrev pub life_time : ℕ
life_time = 10000

abbrev pub filter_base_lg : ℕ
filter_base_lg = 11

abbrev pub filter_base : ℕ
filter_base = 2 ^ filter_base_lg
