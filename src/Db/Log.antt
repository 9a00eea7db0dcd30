-- ===== src/Db/Log.antt =====
-- db/log_format.h: the log, a sequence of blocks of 32 KB in which records stand as fragments.
pub mod Writer
pub mod Reader
pub mod Physical
pub mod Total
pub mod Rounds
use rally_db.Prelude.{ℕ}

-- The codes of `RecordType`, and the two that `Reader` adds for its own use.
abbrev pub zero_type : ℕ
zero_type = 0

abbrev pub full_type : ℕ
full_type = 1

abbrev pub first_type : ℕ
first_type = 2

abbrev pub middle_type : ℕ
middle_type = 3

abbrev pub last_type : ℕ
last_type = 4

abbrev pub eof : ℕ
eof = 5

abbrev pub bad_record : ℕ
bad_record = 6

abbrev pub block_size : ℕ
block_size = 32768

abbrev pub header_size : ℕ
header_size = 7
