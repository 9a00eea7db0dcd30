-- ===== src/Db/VersionSet/Setup.antt =====
-- db/version_set.cc: the choice of a compaction's inputs, `AddBoundaryInputs`, `SetupOtherInputs` and
-- `CompactRange`. `none` means that the fuel of a loop ran out.
pub mod Boundary
use rally_db.Prelude.{
  ℕ, zero, suc, ◌+◌, ◌*◌, ◌%◌, ◌^◌, List, [], ◌∷◌, ◌++◌, Bool, ◌&&◌, ◌||◌, not, Option, none, some,
  ltb, leb, ◌==◌, if◌then◌else◌, length, ◌>>=◌,
}
use rally_db.Util.Coding.{Bytes}
use rally_db.Util.Comparator.{Comparator, is_negative, is_positive}
use rally_db.Db.Format.{internal_compare, extract_user_key}
use rally_db.Db.VersionEdit.{FileMetaData, num_levels}
use rally_db.Db.VersionSet.Inputs.{get_overlapping_inputs, total_file_size, files_of}
use rally_db.Db.VersionSet.Compaction.{Compaction, new_compaction, max_file_size_for_level}

abbrev expanded_compaction_byte_size_limit : ℕ → ℕ
expanded_compaction_byte_size_limit max_file_size = 25 * max_file_size

module _ (user : Comparator) where
  unfoldable pub larger_key : List FileMetaData → Bytes → Bytes
  larger_key [] largest_key = largest_key
  larger_key (f ∷ files) largest_key =
      larger_key files (
        if is_positive (internal_compare user f.largest largest_key)
        then f.largest
        else largest_key)

  unfoldable pub find_largest_key : List FileMetaData → Option Bytes
  unfolding larger_key
  find_largest_key [] = none
  find_largest_key (f ∷ files) = some (larger_key files f.largest)

  -- `l2 > u1` and `user_key(l2) == user_key(u1)`
  unfoldable pub is_boundary : Bytes → FileMetaData → Bool
  is_boundary largest_key f =
      let order = user.cmp (extract_user_key f.smallest) (extract_user_key largest_key) in
      is_positive (internal_compare user f.smallest largest_key)
      && not (is_negative order || is_positive order)

  unfoldable pub smaller_file : FileMetaData → Option FileMetaData → Option FileMetaData
  smaller_file f none = some f
  smaller_file f (some s) =
      if is_negative (internal_compare user f.smallest s.smallest) then some f else some s

  unfoldable pub boundary_loop :
      List FileMetaData → Bytes → Option FileMetaData → Option FileMetaData
  unfolding is_boundary smaller_file
  boundary_loop [] largest_key found = found
  boundary_loop (f ∷ files) largest_key found =
      boundary_loop files largest_key
        (if is_boundary largest_key f then smaller_file f found else found)

  unfoldable pub find_smallest_boundary_file : List FileMetaData → Bytes → Option FileMetaData
  find_smallest_boundary_file level_files largest_key = boundary_loop level_files largest_key none

  unfoldable pub add_boundary_loop :
      (fuel : ℕ) → List FileMetaData → Bytes → List FileMetaData → Option (List FileMetaData)
  add_boundary_loop zero level_files largest_key files = none
  add_boundary_loop (suc fuel) level_files largest_key files =
      elim (find_smallest_boundary_file level_files largest_key) [
        | none ↦ some files
        | some f ↦ add_boundary_loop fuel level_files f.largest (files ++ f ∷ [])
      ]

  -- Each round passes a file's smallest key.
  unfoldable pub add_boundary_inputs :
      (level_files compaction_files : List FileMetaData) → Option (List FileMetaData)
  add_boundary_inputs level_files compaction_files = elim (find_largest_key compaction_files) [
    | none ↦ some compaction_files
    | some key ↦ add_boundary_loop (suc (length level_files)) level_files key compaction_files
  ]

  range_loop : List FileMetaData → (smallest largest : Bytes) → Bytes × Bytes
  range_loop [] smallest largest = (smallest, largest)
  range_loop (f ∷ files) smallest largest =
      range_loop files
        (if is_negative (internal_compare user f.smallest smallest) then f.smallest else smallest)
        (if is_positive (internal_compare user f.largest largest) then f.largest else largest)

  get_range : List FileMetaData → Bytes × Bytes
  unfolding range_loop
  get_range [] = ([], [])
  get_range (f ∷ files) = range_loop files f.smallest f.largest

  abbrev get_range2 : (inputs1 inputs2 : List FileMetaData) → Bytes × Bytes
  get_range2 inputs1 inputs2 = get_range (inputs1 ++ inputs2)

  -- `GetOverlappingInputs` of the current version, between two keys.
  abbrev overlapping : List (List FileMetaData) → ℕ → Bytes × Bytes → Option (List FileMetaData)
  overlapping levels level range =
      get_overlapping_inputs user level (files_of levels level) (some range.0) (some range.1)

  -- The inputs of the level grow when the inputs of the next level stay as many.
  expand :
      (max_file_size : ℕ)
      → List (List FileMetaData)
      → ℕ
      → (inputs0 inputs1 : List FileMetaData) → Option (List FileMetaData × List FileMetaData)
  unfolding total_file_size
  expand max_file_size levels level inputs0 inputs1 =
      overlapping levels level (get_range2 inputs0 inputs1) >>= λ overlaps.
      add_boundary_inputs (files_of levels level) overlaps >>= λ expanded0.
      if ltb (length inputs0) (length expanded0)
        && ltb (total_file_size inputs1 + total_file_size expanded0)
            (expanded_compaction_byte_size_limit max_file_size)
      then (overlapping levels (level + 1) (get_range expanded0) >>= λ overlaps1.
          add_boundary_inputs (files_of levels (level + 1)) overlaps1 >>= λ expanded1. some (
            if length expanded1 == length inputs1
            then (expanded0, expanded1)
            else (inputs0, inputs1)))
      else some (inputs0, inputs1)

  -- The compaction, and the new compaction pointer of its level, which its edit also stores.
  setup_other_inputs :
      (max_file_size : ℕ) → List (List FileMetaData) → Compaction → Option (Compaction × Bytes)
  unfolding get_range expand
  setup_other_inputs max_file_size levels c =
      add_boundary_inputs (files_of levels c.level) c.inputs0 >>= λ inputs0.
      overlapping levels (c.level + 1) (get_range inputs0) >>= λ overlaps.
      add_boundary_inputs (files_of levels (c.level + 1)) overlaps >>= λ inputs1.
      (if length inputs1 == 0
        then some (inputs0, inputs1)
        else expand max_file_size levels c.level inputs0 inputs1)
      >>= λ both.
          (if ltb (c.level + 2) num_levels
            then overlapping levels (c.level + 2) (get_range2 both.0 both.1)
            else some c.grandparents)
          >>= λ grandparents. some (
            record c { inputs0 = both.0; inputs1 = both.1; grandparents = grandparents },
            (get_range both.0).1,
          )

  -- The loop of `CompactRange`: the files up to the one that reaches the limit.
  cut_inputs : (limit total : ℕ) → List FileMetaData → List FileMetaData
  cut_inputs limit total [] = []
  cut_inputs limit total (f ∷ files) =
      let total' = (total + f.file_size) % 2 ^ 64 in
      let rest = cut_inputs limit total' files in if leb limit total' then f ∷ [] else f ∷ rest

  -- There is no compaction when no file overlaps the range.
  compact_range :
      (max_file_size : ℕ)
      → List (List FileMetaData)
      → ℕ
      → (begin end : Option Bytes) → Option (Option (Compaction × Bytes))
  unfolding cut_inputs setup_other_inputs
  compact_range max_file_size levels level begin end =
      get_overlapping_inputs user level (files_of levels level) begin end >>= λ inputs.
      let cut =
        if ltb 0 level
        then cut_inputs (max_file_size_for_level max_file_size) 0 inputs
        else inputs in
      if length inputs == 0
      then some none
      else (setup_other_inputs max_file_size levels
            (record (new_compaction max_file_size level) { inputs0 = cut })
          >>= λ done. some (some done))
