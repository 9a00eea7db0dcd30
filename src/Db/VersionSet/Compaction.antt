-- ===== src/Db/VersionSet/Compaction.antt =====
-- db/version_set.cc: `Compaction`, the files that are being merged and the state of the merge. The files
-- of the input version are an argument of what reads them. An `int64_t` is a number that fits.
pub mod Base
use rally_db.Prelude.{
  ℕ, zero, suc, ◌+◌, ◌-◌, ◌*◌, ◌/◌, ◌%◌, ◌^◌, List, [], ◌∷◌, ◌++◌, Bool, true, false, ◌&&◌, ◌||◌,
  not, ltb, leb, ◌==◌, if◌then◌else◌, length, get_or, set, drop, replicate,
}
use rally_db.Util.Coding.{Bytes}
use rally_db.Util.Comparator.{Comparator, is_negative, is_positive}
use rally_db.Db.Format.{internal_compare, extract_user_key}
use rally_db.Db.VersionEdit.{FileMetaData, VersionEdit, num_levels, remove_file}
use rally_db.Db.VersionSet.Inputs.{total_file_size, files_of}

pub record Compaction : Type 0 where
  pub level : ℕ
  pub max_output_file_size : ℕ
  pub inputs0 : List FileMetaData
  pub inputs1 : List FileMetaData
  pub access_times0 : List ℕ
  pub access_times1 : List ℕ
  pub grandparents : List FileMetaData
  pub grandparent_index : ℕ
  pub seen_key : Bool
  pub overlapped_bytes : ℕ
  pub level_ptrs : List ℕ

-- `TargetFileSize` is `max_file_size` of the options.
abbrev pub max_grand_parent_overlap_bytes : ℕ → ℕ
max_grand_parent_overlap_bytes max_file_size = 10 * max_file_size

abbrev pub max_file_size_for_level : ℕ → ℕ
max_file_size_for_level max_file_size = max_file_size

unfoldable pub new_compaction : (max_file_size level : ℕ) → Compaction
new_compaction max_file_size level = record {
  level = level;
  max_output_file_size = max_file_size_for_level max_file_size;
  inputs0 = [];
  inputs1 = [];
  access_times0 = [];
  access_times1 = [];
  grandparents = [];
  grandparent_index = 0;
  seen_key = false;
  overlapped_bytes = 0;
  level_ptrs = replicate num_levels 0;
}

is_trivial_move : (max_file_size : ℕ) → Compaction → Bool
unfolding total_file_size
is_trivial_move max_file_size c =
    length c.inputs0 == 1
    && length c.inputs1 == 0
    && leb (total_file_size c.grandparents) (max_grand_parent_overlap_bytes max_file_size)

remove_files : List FileMetaData → ℕ → VersionEdit → VersionEdit
unfolding remove_file
remove_files [] level edit = edit
remove_files (f ∷ files) level edit = remove_files files level (remove_file edit level f.number)

add_input_deletions : Compaction → VersionEdit → VersionEdit
unfolding remove_files
add_input_deletions c edit =
    remove_files c.inputs1 (c.level + 1) (remove_files c.inputs0 c.level edit)

module _ (user : Comparator) where
  -- `user_key` is above the largest key of the file.
  abbrev pub is_above : Bytes → FileMetaData → Bool
  is_above user_key f = is_positive (user.cmp user_key (extract_user_key f.largest))

  -- `user_key` is not below the smallest key of the file.
  abbrev pub reaches : Bytes → FileMetaData → Bool
  reaches user_key f = not (is_negative (user.cmp user_key (extract_user_key f.smallest)))

  -- The inner loop of `IsBaseLevelForKey`, on the files from the level's pointer on: whether the key falls
  -- in a file's range, and the pointer.
  unfoldable pub advance : Bytes → List FileMetaData → ℕ → Bool × ℕ
  advance user_key [] ptr = (false, ptr)
  advance user_key (f ∷ files) ptr =
      let rest = advance user_key files (suc ptr) in
      if is_above user_key f then rest else (reaches user_key f, ptr)

  -- The outer loop, on the levels left.
  unfoldable pub base_level_loop :
      (left level : ℕ) → Bytes → List (List FileMetaData) → List ℕ → Bool × List ℕ
  base_level_loop zero level user_key levels ptrs = (true, ptrs)
  base_level_loop (suc left) level user_key levels ptrs =
      let ptr = get_or ptrs level 0 in
      let found = advance user_key (drop ptr (files_of levels level)) ptr in
      let ptrs' = set ptrs level found.1 in
      let rest = base_level_loop left (level + 1) user_key levels ptrs' in
      if found.0 then (false, ptrs') else rest

  unfoldable pub is_base_level_for_key :
      List (List FileMetaData) → Bytes → Compaction → Bool × Compaction
  is_base_level_for_key levels user_key c =
      let done =
        base_level_loop (num_levels - (c.level + 2)) (c.level + 2) user_key levels c.level_ptrs in
      (done.0, record c { level_ptrs = done.1 })

  -- The loop of `ShouldStopBefore`, on the grandparents from the index on: the index and the bytes.
  grandparent_loop : Bytes → (seen_key : Bool) → List FileMetaData → (index bytes : ℕ) → ℕ × ℕ
  grandparent_loop key seen_key [] index bytes = (index, bytes)
  grandparent_loop key seen_key (f ∷ files) index bytes =
      let rest =
        grandparent_loop key seen_key files (suc index)
          (if seen_key then bytes + f.file_size else bytes) in
      if is_positive (internal_compare user key f.largest) then rest else (index, bytes)

  should_stop_before : (max_file_size : ℕ) → Bytes → Compaction → Bool × Compaction
  unfolding grandparent_loop
  should_stop_before max_file_size key c =
      let done =
        grandparent_loop key c.seen_key (drop c.grandparent_index c.grandparents)
          c.grandparent_index c.overlapped_bytes in
      let c' = record c {
        grandparent_index = done.0;
        overlapped_bytes = done.1;
        seen_key = true;
      } in
      if ltb (max_grand_parent_overlap_bytes max_file_size) done.1
      then (true, record c' { overlapped_bytes = 0 })
      else (false, c')

  compare_user_keys : Bytes → Bytes → Bool
  compare_user_keys key1 key2 =
      is_negative (user.cmp (extract_user_key key1) (extract_user_key key2))

  is_overlapping : (input_smallest input_largest output_smallest output_largest : Bytes) → Bool
  unfolding compare_user_keys
  is_overlapping input_smallest input_largest output_smallest output_largest = not (
      compare_user_keys output_largest input_smallest
      || compare_user_keys input_largest output_smallest)

  -- The inner loop of `GetNewTableAccessTime`: the access times of the files that overlap, and their number.
  access_time_loop :
      List FileMetaData → List ℕ → (smallest largest : Bytes) → (access_times sum : ℕ) → ℕ × ℕ
  unfolding is_overlapping
  access_time_loop [] times smallest largest access_times sum = (access_times, sum)
  access_time_loop (f ∷ files) [] smallest largest access_times sum = (access_times, sum)
  access_time_loop (f ∷ files) (t ∷ times) smallest largest access_times sum =
      let taken =
        access_time_loop files times smallest largest ((access_times + t) % 2 ^ 64) (sum + 1) in
      let left = access_time_loop files times smallest largest access_times sum in
      if is_overlapping f.smallest f.largest smallest largest then taken else left

  get_new_table_access_time : (smallest largest : Bytes) → Compaction → ℕ
  unfolding access_time_loop
  get_new_table_access_time smallest largest c =
      let first = access_time_loop c.inputs0 c.access_times0 smallest largest 0 0 in
      let both = access_time_loop c.inputs1 c.access_times1 smallest largest first.0 first.1 in
      if both.1 == 0 then 0 else both.0 / both.1
