-- ===== src/Db/VersionEdit.antt =====
-- db/version_edit.h and db/version_edit.cc: a change of the set of files, and its bytes in the manifest.
pub mod Encode
pub mod Decode
pub mod Fields
pub mod Reads
pub mod RoundTrip
pub mod Total
use rally_db.Prelude.{
  ℕ, zero, suc, ◌+◌, List, [], ◌∷◌, Bool, true, false, Option, none, some, ltb, ◌==◌, ◌||◌, ◌&&◌,
  if◌then◌else◌, length, ◌⊎◌, inl, inr, ◌>>=◌, ◌++◌,
}
use rally_db.Util.Status.{Status, ok, corruption}
use rally_db.Util.Coding.{
  Bytes, put_varint32, put_varint64, put_length_prefixed_slice, get_varint32, get_varint64,
  get_length_prefixed_slice,
}
use Prim.Native.String.{String}

-- `enum Tag`
pub data Tag : Type 0 where
  comparator_tag log_number_tag next_file_number_tag last_sequence_tag compact_pointer_tag : Tag
  deleted_file_tag new_file_tag prev_log_number_tag : Tag

abbrev pub number : Tag → ℕ
number comparator_tag = 1
number log_number_tag = 2
number next_file_number_tag = 3
number last_sequence_tag = 4
number compact_pointer_tag = 5
number deleted_file_tag = 6
number new_file_tag = 7
number prev_log_number_tag = 9

-- The labels of `switch (tag)`.
unfoldable pub tag_of : ℕ → Option Tag
tag_of n =
    if n == 1
    then some comparator_tag
    else if n == 2
    then some log_number_tag
    else if n == 3
    then some next_file_number_tag
    else if n == 4
    then some last_sequence_tag
    else if n == 5
    then some compact_pointer_tag
    else if n == 6
    then some deleted_file_tag
    else if n == 7
    then some new_file_tag
    else if n == 9
    then some prev_log_number_tag
    else none

abbrev pub num_levels : ℕ
num_levels = 7

-- `FileMetaData`, without the counters of its uses, which are not part of an edit's bytes.
pub record FileMetaData : Type 0 where
  pub number : ℕ
  pub file_size : ℕ
  pub smallest : Bytes
  pub largest : Bytes

pub record VersionEdit : Type 0 where
  pub comparator : Bytes
  pub log_number : ℕ
  pub prev_log_number : ℕ
  pub next_file_number : ℕ
  pub last_sequence : ℕ
  pub has_comparator : Bool
  pub has_log_number : Bool
  pub has_prev_log_number : Bool
  pub has_next_file_number : Bool
  pub has_last_sequence : Bool
  pub compact_pointers : List (ℕ × Bytes)
  pub deleted_files : List (ℕ × ℕ)
  pub new_files : List (ℕ × FileMetaData)

-- `Clear`
unfoldable pub clear : VersionEdit
clear = record {
  comparator = [];
  log_number = 0;
  prev_log_number = 0;
  next_file_number = 0;
  last_sequence = 0;
  has_comparator = false;
  has_log_number = false;
  has_prev_log_number = false;
  has_next_file_number = false;
  has_last_sequence = false;
  compact_pointers = [];
  deleted_files = [];
  new_files = [];
}

-- `operator<` of `std::pair<int, uint64_t>`
abbrev pub before : ℕ × ℕ → ℕ × ℕ → Bool
before (a, b) (c, d) = ltb a c || (a == c && ltb b d)

-- `insert` of `std::set`: the elements in order, each once.
unfoldable pub insert_deleted : ℕ × ℕ → List (ℕ × ℕ) → List (ℕ × ℕ)
insert_deleted p [] = p ∷ []
insert_deleted p (q ∷ qs) =
    let rest = insert_deleted p qs in
    if before p q then p ∷ q ∷ qs else if before q p then q ∷ rest else q ∷ qs

unfoldable pub set_comparator_name : VersionEdit → Bytes → VersionEdit
set_comparator_name e name = record e { has_comparator = true; comparator = name }

unfoldable pub set_log_number : VersionEdit → ℕ → VersionEdit
set_log_number e num = record e { has_log_number = true; log_number = num }

unfoldable pub set_prev_log_number : VersionEdit → ℕ → VersionEdit
set_prev_log_number e num = record e { has_prev_log_number = true; prev_log_number = num }

unfoldable pub set_next_file : VersionEdit → ℕ → VersionEdit
set_next_file e num = record e { has_next_file_number = true; next_file_number = num }

unfoldable pub set_last_sequence : VersionEdit → ℕ → VersionEdit
set_last_sequence e seq = record e { has_last_sequence = true; last_sequence = seq }

unfoldable pub set_compact_pointer : VersionEdit → ℕ → Bytes → VersionEdit
set_compact_pointer e level key = record e {
  compact_pointers = e.compact_pointers ++ ((level, key) ∷ []);
}

unfoldable pub add_file : VersionEdit → (level : ℕ) → FileMetaData → VersionEdit
add_file e level f = record e { new_files = e.new_files ++ ((level, f) ∷ []) }

unfoldable pub remove_file : VersionEdit → (level file : ℕ) → VersionEdit
remove_file e level file = record e { deleted_files = insert_deleted (level, file) e.deleted_files }
