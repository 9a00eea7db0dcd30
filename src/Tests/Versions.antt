-- ===== src/Tests/Versions.antt =====
-- Runs of the operations on versions.
use rally_db.Prelude.{
  ℕ, zero, suc, List, [], ◌∷◌, ◌≡◌, refl, some, Option, All, map, true, false, ◌++◌,
}
use rally_db.Util.Coding.{Bytes, decode_fixed64}
use rally_db.Util.Comparator.{bytewise_comparator, compare, memcmp}
use rally_db.Db.Format.{internal_compare, extract_tag, extract_user_key}
use rally_db.Db.VersionEdit.{FileMetaData}
use rally_db.Db.VersionSet.Inputs.{
  get_overlapping_inputs, user_part_of, files_of, overlapping_loop, scan_files, ends_in_front,
  starts_behind, starts_in_front, ends_behind,
}
use rally_db.Db.VersionSet.Compaction.{new_compaction}
use rally_db.Db.VersionSet.Compaction.Base.{
  StartsRise, KeysRise, answers, is_base, none_from, any_covers, answers-is_base,
}
use rally_db.Db.VersionSet.Setup.{
  add_boundary_inputs, find_largest_key, is_boundary, add_boundary_loop,
  find_smallest_boundary_file, boundary_loop, smaller_file, larger_key,
}
use rally_db.Db.VersionSet.Setup.Boundary.{IsFile, Among, add_boundary_inputs-closed}
use rally_db.Db.VersionSet.Inputs.Scan.{selected, Inside}
use rally_db.Db.VersionSet.Inputs.Closed.{get_overlapping_inputs-closed}

abbrev key_of : ℕ → Bytes
key_of k = k ∷ 0 ∷ 0 ∷ 0 ∷ 0 ∷ 0 ∷ 0 ∷ 0 ∷ 0 ∷ []

abbrev file_of : ℕ → ℕ → ℕ → FileMetaData
file_of n from to = record {
  number = n;
  file_size = 100;
  smallest = key_of from;
  largest = key_of to;
}

-- The first file meets the range only through the second one.
abbrev level_files : List FileMetaData
level_files = file_of 7 b'a' b'c' ∷ file_of 8 b'c' b'f' ∷ file_of 9 b'x' b'z' ∷ []

get_overlapping_inputs-closed_example :
    (inputs : List FileMetaData) × (last_begin : Option Bytes) × (last_end : Option Bytes)
    × (get_overlapping_inputs bytewise_comparator 0 level_files
          (some (key_of b'e'))
          (some (key_of b'g'))
        ≡ some inputs)
    × (inputs ≡ selected last_begin last_end level_files)
    × All (Inside last_begin last_end) inputs
    × (selected (user_part_of (some (key_of b'e'))) (user_part_of (some (key_of b'g'))) inputs
        ≡ selected
            (user_part_of (some (key_of b'e')))
            (user_part_of (some (key_of b'g')))
            level_files)
get_overlapping_inputs-closed_example =
    get_overlapping_inputs-closed level_files (some (key_of b'e')) (some (key_of b'g'))

widened :
    get_overlapping_inputs bytewise_comparator 0 level_files
      (some (key_of b'e'))
      (some (key_of b'g'))
    ≡ some (file_of 7 b'a' b'c' ∷ file_of 8 b'c' b'f' ∷ [])
unfolding get_overlapping_inputs overlapping_loop scan_files ends_in_front starts_behind
    starts_in_front ends_behind extract_user_key compare memcmp
widened = refl

-- Level 2 holds the three files, and no other level has one.
abbrev deep_files : List (List FileMetaData)
deep_files = [] ∷ [] ∷ (file_of 7 b'a' b'c' ∷ file_of 8 b'd' b'f' ∷ file_of 9 b'x' b'z' ∷ []) ∷ []

deep_files_rise : (l : ℕ) → StartsRise (files_of deep_files l)
unfolding StartsRise extract_user_key compare memcmp
deep_files_rise zero = tt
deep_files_rise (suc zero) = tt
deep_files_rise (suc (suc zero)) = (((λ e. cc), ((λ e. cc), tt)), (((λ e. cc), tt), (tt, tt)))
deep_files_rise (suc (suc (suc l))) = tt

abbrev asked : List Bytes
asked = (b'b' ∷ []) ∷ (b'g' ∷ []) ∷ (b'y' ∷ []) ∷ []

asked_rise : KeysRise asked
unfolding KeysRise compare memcmp
asked_rise = ((λ e. cc), ((λ e. cc), tt))

answers-is_base_example :
    answers deep_files asked (new_compaction 2097152 0) ≡ map (is_base deep_files 0) asked
unfolding new_compaction
answers-is_base_example =
    answers-is_base deep_files asked (new_compaction 2097152 0) deep_files_rise asked_rise refl

asked_answers : map (is_base deep_files 0) asked ≡ false ∷ true ∷ false ∷ []
unfolding none_from any_covers extract_user_key compare memcmp
asked_answers = refl

-- Older entries of the user key `c` stand in the second file.
abbrev older_key_of : ℕ → Bytes
older_key_of k = k ∷ 1 ∷ 0 ∷ 0 ∷ 0 ∷ 0 ∷ 0 ∷ 0 ∷ 0 ∷ []

abbrev newer_file : FileMetaData
newer_file = record {
  number = 4;
  file_size = 100;
  smallest = older_key_of b'a';
  largest = older_key_of b'c';
}

abbrev split_files : List FileMetaData
split_files = newer_file ∷ file_of 8 b'c' b'f' ∷ file_of 9 b'x' b'z' ∷ []

split_files-IsFile : All IsFile split_files
unfolding internal_compare extract_user_key extract_tag decode_fixed64 compare memcmp
split_files-IsFile = (refl, (refl, (refl, tt)))

add_boundary_inputs-closed_example :
    (added : List FileMetaData) × (add_boundary_inputs bytewise_comparator split_files
        (newer_file ∷ [])
      ≡ some ((newer_file ∷ []) ++ added))
    × All (Among split_files) added
    × ((key : Bytes)
        → find_largest_key bytewise_comparator ((newer_file ∷ []) ++ added) ≡ some key
        → All (λ f. is_boundary bytewise_comparator key f ≡ false) split_files)
add_boundary_inputs-closed_example =
    add_boundary_inputs-closed split_files (newer_file ∷ []) split_files-IsFile

one_boundary :
    add_boundary_inputs bytewise_comparator split_files (newer_file ∷ [])
    ≡ some (newer_file ∷ file_of 8 b'c' b'f' ∷ [])
unfolding add_boundary_inputs add_boundary_loop find_smallest_boundary_file boundary_loop
    is_boundary smaller_file find_largest_key larger_key internal_compare extract_user_key
    extract_tag decode_fixed64 compare memcmp
one_boundary = refl
