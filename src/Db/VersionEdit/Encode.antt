-- ===== src/Db/VersionEdit/Encode.antt =====
-- `EncodeTo` of db/version_edit.cc.
use rally_db.Prelude.{ℕ, List, [], ◌∷◌, if◌then◌else◌}
use rally_db.Util.Coding.{Bytes, put_varint32, put_varint64, put_length_prefixed_slice}
use rally_db.Db.VersionEdit.{FileMetaData, VersionEdit}

-- The loops of `EncodeTo`.
unfoldable pub put_pointers : Bytes → List (ℕ × Bytes) → Bytes
put_pointers dst [] = dst
put_pointers dst ((level, key) ∷ ps) =
    put_pointers (put_length_prefixed_slice (put_varint32 (put_varint32 dst 5) level) key) ps

unfoldable pub put_deleted : Bytes → List (ℕ × ℕ) → Bytes
put_deleted dst [] = dst
put_deleted dst ((level, file) ∷ ps) =
    put_deleted (put_varint64 (put_varint32 (put_varint32 dst 6) level) file) ps

unfoldable pub put_new_files : Bytes → List (ℕ × FileMetaData) → Bytes
put_new_files dst [] = dst
put_new_files dst ((level, f) ∷ ps) =
    let numbers =
      put_varint64 (put_varint64 (put_varint32 (put_varint32 dst 7) level) f.number) f.file_size in
    put_new_files
      (put_length_prefixed_slice (put_length_prefixed_slice numbers f.smallest) f.largest) ps

unfoldable pub encode_to : Bytes → VersionEdit → Bytes
encode_to dst e =
    let a =
      if e.has_comparator
      then put_length_prefixed_slice (put_varint32 dst 1) e.comparator
      else dst in
    let b = if e.has_log_number then put_varint64 (put_varint32 a 2) e.log_number else a in
    let c =
      if e.has_prev_log_number then put_varint64 (put_varint32 b 9) e.prev_log_number else b in
    let d =
      if e.has_next_file_number then put_varint64 (put_varint32 c 3) e.next_file_number else c in
    let f = if e.has_last_sequence then put_varint64 (put_varint32 d 4) e.last_sequence else d in
    put_new_files (put_deleted (put_pointers f e.compact_pointers) e.deleted_files) e.new_files
