-- ===== src/Util/Status.antt =====
-- include/leveldb/status.h: the outcome of an operation, with the message of an error.
use Prim.Native.String.{String}
use mathlib.Core.Bool.{Bool, true, false}

pub data Status : Type 0 where
  ok : Status
  not_found : String → Status
  corruption : String → Status
  not_supported : String → Status
  invalid_argument : String → Status
  io_error : String → Status

-- `Status::ok()`
abbrev pub is_ok : Status → Bool
is_ok ok = true
is_ok _ = false
