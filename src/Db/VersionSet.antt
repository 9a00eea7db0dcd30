-- ===== src/Db/VersionSet.antt =====
-- db/version_set.cc: the search among the files of a level. A level's files are a list; a key that is a
-- null pointer is `none`.
pub mod Search
pub mod Overlap
pub mod Inputs
pub mod Compaction
pub mod Setup
use rally_db.Prelude.{
  ℕ, zero, suc, ◌+◌, ◌/◌, ◌%◌, ◌^◌, List, [], ◌∷◌, Bool, true, false, ◌||◌, not, Option, none, some,
  ltb, leb, if◌then◌else◌, length, get_or,
}
use rally_db.Util.Coding.{Bytes}
use rally_db.Util.Comparator.{Comparator, is_negative, is_positive}
use rally_db.Db.Format.{
  internal_compare, extract_user_key, append_internal_key, max_sequence_number, value_type_for_seek,
}
use rally_db.Db.VersionEdit.{FileMetaData}

-- Stands for a file out of range, which no caller reads.
abbrev pub no_file : FileMetaData
no_file = record { number = 0; file_size = 0; smallest = []; largest = [] }

module _ (user : Comparator) where
  -- `Compare(f->largest.Encode(), key) < 0`
  unfoldable pub ends_before : Bytes → FileMetaData → Bool
  ends_before key f = is_negative (internal_compare user f.largest key)

  -- The loop of `FindFile`, on a `uint32_t` each. A round makes the range smaller.
  unfoldable pub find_loop : (fuel left right : ℕ) → List FileMetaData → Bytes → ℕ
  find_loop zero left right files key = right
  find_loop (suc fuel) left right files key =
      let mid = (left + right) % 2 ^ 32 / 2 in
      elim (ltb left right) [
        | true ↦ elim (ends_before key (get_or files mid no_file)) [
          | true ↦ find_loop fuel (mid + 1) right files key
          | false ↦ find_loop fuel left mid files key
        ]
        | false ↦ right
      ]

  unfoldable pub find_file : List FileMetaData → Bytes → ℕ
  find_file files key = find_loop (length files) 0 (length files % 2 ^ 32) files key

  unfoldable pub after_file : Option Bytes → FileMetaData → Bool
  after_file none f = false
  after_file (some key) f = is_positive (user.cmp key (extract_user_key f.largest))

  unfoldable pub before_file : Option Bytes → FileMetaData → Bool
  before_file none f = false
  before_file (some key) f = is_negative (user.cmp key (extract_user_key f.smallest))

  -- The check against all files.
  unfoldable pub any_overlaps : List FileMetaData → (smallest largest : Option Bytes) → Bool
  any_overlaps [] smallest largest = false
  any_overlaps (f ∷ files) smallest largest =
      let rest = any_overlaps files smallest largest in
      if after_file smallest f || before_file largest f then rest else true

  -- The index of the first file that may overlap.
  unfoldable pub first_candidate : List FileMetaData → Option Bytes → ℕ
  first_candidate files none = 0
  first_candidate files (some key) = find_file files (
      append_internal_key []
        (record { user_key = key; sequence = max_sequence_number; type = value_type_for_seek }))

  unfoldable pub some_file_overlaps_range :
      (disjoint_sorted_files : Bool) → List FileMetaData → (smallest largest : Option Bytes) → Bool
  some_file_overlaps_range false files smallest largest = any_overlaps files smallest largest
  some_file_overlaps_range true files smallest largest =
      let index = first_candidate files smallest in
      if leb (length files) index
      then false
      else not (before_file largest (get_or files index no_file))
