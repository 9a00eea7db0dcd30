-- ===== src/Db/FileName.antt =====
-- db/filename.h and db/filename.cc: the names of a database's files. A string literal is its bytes.
pub mod Parsed
use rally_db.Prelude.{
  ℕ, ◌+◌, ◌-◌, List, [], ◌∷◌, ◌++◌, Bool, true, false, ◌||◌, Option, none, some, if◌then◌else◌,
  length, take, drop, replicate,
}
use rally_db.Prelude.Bytes.{same}
use rally_db.Util.Coding.{Bytes}
use rally_db.Util.Logging.{digits, consume_decimal_number}

-- `enum FileType`
pub data FileType : Type 0 where
  log_file db_lock_file table_file descriptor_file current_file temp_file info_log_file : FileType

-- "%06llu"
unfoldable pub padded : ℕ → Bytes
padded number = let text = digits (number + 1) number [] in replicate (6 - length text) 48 ++ text

-- ".log", ".ldb", ".sst" and ".dbtmp"
abbrev pub log_suffix : Bytes
log_suffix = 46 ∷ 108 ∷ 111 ∷ 103 ∷ []

abbrev pub ldb_suffix : Bytes
ldb_suffix = 46 ∷ 108 ∷ 100 ∷ 98 ∷ []

abbrev pub sst_suffix : Bytes
sst_suffix = 46 ∷ 115 ∷ 115 ∷ 116 ∷ []

abbrev pub temp_suffix : Bytes
temp_suffix = 46 ∷ 100 ∷ 98 ∷ 116 ∷ 109 ∷ 112 ∷ []

-- "CURRENT", "LOCK", "LOG", "LOG.old" and "MANIFEST-"
abbrev pub current_name : Bytes
current_name = 67 ∷ 85 ∷ 82 ∷ 82 ∷ 69 ∷ 78 ∷ 84 ∷ []

abbrev pub lock_name : Bytes
lock_name = 76 ∷ 79 ∷ 67 ∷ 75 ∷ []

abbrev pub info_log_name : Bytes
info_log_name = 76 ∷ 79 ∷ 71 ∷ []

abbrev pub old_info_log_name : Bytes
old_info_log_name = 76 ∷ 79 ∷ 71 ∷ 46 ∷ 111 ∷ 108 ∷ 100 ∷ []

abbrev pub manifest_prefix : Bytes
manifest_prefix = 77 ∷ 65 ∷ 78 ∷ 73 ∷ 70 ∷ 69 ∷ 83 ∷ 84 ∷ 45 ∷ []

-- `MakeFileName`; the suffix comes with its dot.
unfoldable pub make_file_name : Bytes → ℕ → Bytes → Bytes
make_file_name dbname number suffix = dbname ++ (47 ∷ (padded number ++ suffix))

unfoldable pub log_file_name : Bytes → ℕ → Bytes
log_file_name dbname number = make_file_name dbname number log_suffix

unfoldable pub table_file_name : Bytes → ℕ → Bytes
table_file_name dbname number = make_file_name dbname number ldb_suffix

unfoldable pub sst_table_file_name : Bytes → ℕ → Bytes
sst_table_file_name dbname number = make_file_name dbname number sst_suffix

unfoldable pub descriptor_file_name : Bytes → ℕ → Bytes
descriptor_file_name dbname number = dbname ++ (47 ∷ (manifest_prefix ++ padded number))

unfoldable pub current_file_name : Bytes → Bytes
current_file_name dbname = dbname ++ (47 ∷ current_name)

unfoldable pub lock_file_name : Bytes → Bytes
lock_file_name dbname = dbname ++ (47 ∷ lock_name)

unfoldable pub temp_file_name : Bytes → ℕ → Bytes
temp_file_name dbname number = make_file_name dbname number temp_suffix

unfoldable pub info_log_file_name : Bytes → Bytes
info_log_file_name dbname = dbname ++ (47 ∷ info_log_name)

unfoldable pub old_info_log_file_name : Bytes → Bytes
old_info_log_file_name dbname = dbname ++ (47 ∷ old_info_log_name)

-- The type that stands behind the number.
unfoldable pub type_of_suffix : Bytes → Option FileType
type_of_suffix suffix =
    if same suffix log_suffix
    then some log_file
    else if same suffix sst_suffix || same suffix ldb_suffix
    then some table_file
    else if same suffix temp_suffix
    then some temp_file
    else none

unfoldable pub parse_numbered : Bytes → Option (ℕ × FileType)
parse_numbered rest = elim (consume_decimal_number rest) [
  | none ↦ none
  | some (num, suffix) ↦ elim (type_of_suffix suffix) [ none ↦ none | some t ↦ some (num, t) ]
]

unfoldable pub parse_descriptor : Bytes → Option (ℕ × FileType)
parse_descriptor rest = elim (consume_decimal_number rest) [
  | none ↦ none
  | some (num, []) ↦ some (num, descriptor_file)
  | some (num, _ ∷ _) ↦ none
]

-- `ParseFileName`; `none` is `false`.
unfoldable pub parse_file_name : Bytes → Option (ℕ × FileType)
parse_file_name filename =
    if same filename current_name
    then some (0, current_file)
    else if same filename lock_name
    then some (0, db_lock_file)
    else if same filename info_log_name || same filename old_info_log_name
    then some (0, info_log_file)
    else if same (take 9 filename) manifest_prefix
    then parse_descriptor (drop 9 filename)
    else parse_numbered filename
