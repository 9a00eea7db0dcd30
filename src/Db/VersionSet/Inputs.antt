-- ===== src/Db/VersionSet/Inputs.antt =====
-- db/version_set.cc: `GetOverlappingInputs`, and the choice of a level for a new table.
pub mod Scan
pub mod Closed
use rally_db.Prelude.{
  ℕ, zero, suc, ◌+◌, ◌*◌, ◌^◌, List, [], ◌∷◌, ◌++◌, ◌⊎◌, inl, inr, Bool, true, false, ◌&&◌, ◌||◌,
  not, Option, none, some, ltb, ◌==◌, if◌then◌else◌, length, get_or, Option-cases, ◌>>=◌,
}
use rally_db.Util.Coding.{Bytes}
use rally_db.Util.Comparator.{Comparator, is_negative, is_positive}
use rally_db.Db.Format.{
  ValueType, deletion, ParsedInternalKey, append_internal_key, extract_user_key,
  max_sequence_number, value_type_for_seek,
}
use rally_db.Db.VersionEdit.{FileMetaData, num_levels}
use rally_db.Db.VersionSet.{some_file_overlaps_range}

-- The user key of a key that is not a null pointer.
abbrev pub user_part_of : Option Bytes → Option Bytes
user_part_of none = none
user_part_of (some key) = some (extract_user_key key)

-- In an `int64_t`.
unfoldable pub total_file_size : List FileMetaData → ℕ
total_file_size [] = 0
total_file_size (f ∷ files) = f.file_size + total_file_size files

-- `files_[level]`
abbrev pub files_of : List (List FileMetaData) → ℕ → List FileMetaData
files_of levels level = get_or levels level []

module _ (user : Comparator) where
  -- `begin != nullptr && file_limit < user_begin`
  unfoldable pub ends_in_front : Option Bytes → FileMetaData → Bool
  ends_in_front none f = false
  ends_in_front (some begin) f = is_negative (user.cmp (extract_user_key f.largest) begin)

  -- `end != nullptr && file_start > user_end`
  unfoldable pub starts_behind : Option Bytes → FileMetaData → Bool
  starts_behind none f = false
  starts_behind (some end) f = is_positive (user.cmp (extract_user_key f.smallest) end)

  -- `begin != nullptr && file_start < user_begin`
  unfoldable pub starts_in_front : Option Bytes → FileMetaData → Bool
  starts_in_front none f = false
  starts_in_front (some begin) f = is_negative (user.cmp (extract_user_key f.smallest) begin)

  -- `end != nullptr && file_limit > user_end`
  unfoldable pub ends_behind : Option Bytes → FileMetaData → Bool
  ends_behind none f = false
  ends_behind (some end) f = is_positive (user.cmp (extract_user_key f.largest) end)

  -- The loop up to its end (`inl`, the inputs) or to the next restart (`inr`, the new range).
  unfoldable pub scan_files :
      (level : ℕ)
      → List FileMetaData
      → (begin end : Option Bytes) → List FileMetaData
      → List FileMetaData ⊎ (Option Bytes × Option Bytes)
  scan_files level [] begin end inputs = inl inputs
  scan_files level (f ∷ files) begin end inputs =
      let skipped = scan_files level files begin end inputs in
      let taken = scan_files level files begin end (inputs ++ f ∷ []) in
      if ends_in_front begin f
      then skipped
      else if starts_behind end f
      then skipped
      else if level == 0 && starts_in_front begin f
      then inr (some (extract_user_key f.smallest), end)
      else if level == 0 && ends_behind end f
      then inr (begin, some (extract_user_key f.largest))
      else taken

  -- Each round is a scan from the first file on. `none` means that the fuel ran out.
  unfoldable pub overlapping_loop :
      (fuel level : ℕ) → List FileMetaData → (begin end : Option Bytes) → Option (List FileMetaData)
  unfolding scan_files
  overlapping_loop zero level files begin end = none
  overlapping_loop (suc fuel) level files begin end = elim (scan_files level files begin end []) [
    | inl inputs ↦ some inputs
    | inr (wider_begin, wider_end) ↦ overlapping_loop fuel level files wider_begin wider_end
  ]

  -- Each restart moves the start or the limit of a file to the inside of the range.
  unfoldable pub get_overlapping_inputs :
      (level : ℕ) → List FileMetaData → (begin end : Option Bytes) → Option (List FileMetaData)
  unfolding overlapping_loop
  get_overlapping_inputs level files begin end =
      overlapping_loop (2 * length files + 1) level files (user_part_of begin) (user_part_of end)

  unfoldable pub overlap_in_level :
      List (List FileMetaData) → ℕ → (smallest largest : Option Bytes) → Bool
  overlap_in_level levels level smallest largest =
      some_file_overlaps_range user (ltb 0 level) (files_of levels level) smallest largest

  abbrev max_mem_compact_level : ℕ
  max_mem_compact_level = 2

  -- Whether a table at `level + 1` would overlap too many bytes of the level after it.
  unfoldable pub too_many_grandparents :
      (max_overlap : ℕ) → List (List FileMetaData) → ℕ → (smallest largest : Bytes) → Option Bool
  unfolding total_file_size
  too_many_grandparents max_overlap levels level smallest largest =
      if ltb (level + 2) num_levels
      then (get_overlapping_inputs (level + 2) (files_of levels (level + 2))
            (some (
              append_internal_key [] (record {
                user_key = smallest;
                sequence = max_sequence_number;
                type = value_type_for_seek;
              })))
            (some (
              append_internal_key []
                (record { user_key = largest; sequence = 0; type = deletion })))
          >>= λ overlaps. some (ltb max_overlap (total_file_size overlaps)))
      else some false

  -- The loop, on the levels left up to `kMaxMemCompactLevel`.
  unfoldable pub pick_level_loop :
      (left max_overlap : ℕ) → List (List FileMetaData) → ℕ → (smallest largest : Bytes) → Option ℕ
  pick_level_loop zero max_overlap levels level smallest largest = some level
  pick_level_loop (suc left) max_overlap levels level smallest largest =
      let next = pick_level_loop left max_overlap levels (level + 1) smallest largest in
      if overlap_in_level levels (level + 1) (some smallest) (some largest)
      then some level
      else too_many_grandparents max_overlap levels level smallest largest >>= λ too_many.
          if too_many then some level else next

  -- `max_overlap` is `MaxGrandParentOverlapBytes` of the options.
  unfoldable pub pick_level_for_mem_table_output :
      (max_overlap : ℕ) → List (List FileMetaData) → (smallest largest : Bytes) → Option ℕ
  unfolding pick_level_loop
  pick_level_for_mem_table_output max_overlap levels smallest largest =
      if overlap_in_level levels 0 (some smallest) (some largest)
      then some 0
      else pick_level_loop max_mem_compact_level max_overlap levels 0 smallest largest
