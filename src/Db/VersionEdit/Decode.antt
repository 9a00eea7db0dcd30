-- ===== src/Db/VersionEdit/Decode.antt =====
-- `DecodeFrom` of db/version_edit.cc.
use rally_db.Prelude.{
  ℕ, zero, suc, ◌+◌, Option, none, some, ltb, ◌==◌, if◌then◌else◌, length, ◌⊎◌, inl, inr, ◌>>=◌,
}
use rally_db.Util.Status.{Status, ok, corruption}
use rally_db.Util.Coding.{Bytes, get_varint32, get_varint64, get_length_prefixed_slice}
use Prim.Native.String.{String}
use rally_db.Db.VersionEdit.{
  Tag, comparator_tag, log_number_tag, next_file_number_tag, last_sequence_tag, compact_pointer_tag,
  deleted_file_tag, new_file_tag, prev_log_number_tag, tag_of, num_levels, FileMetaData,
  VersionEdit, clear, set_comparator_name, set_log_number, set_prev_log_number, set_next_file,
  set_last_sequence, set_compact_pointer, add_file, remove_file,
}

-- `InternalKey::DecodeFrom` refuses an empty key.
unfoldable pub get_internal_key : Bytes → Option (Bytes × Bytes)
get_internal_key input = do
  (str, rest) ← get_length_prefixed_slice input
  if length str == 0 then none else some (str, rest)

unfoldable pub get_level : Bytes → Option (ℕ × Bytes)
get_level input = do
  (v, rest) ← get_varint32 input
  if ltb v num_levels then some (v, rest) else none

-- The chains of reads of `kCompactPointer`, `kDeletedFile` and `kNewFile`.
unfoldable pub get_pointer : Bytes → Option ((ℕ × Bytes) × Bytes)
get_pointer input = do
  (level, rest) ← get_level input
  (key, rest₁) ← get_internal_key rest
  some ((level, key), rest₁)

unfoldable pub get_deleted : Bytes → Option ((ℕ × ℕ) × Bytes)
get_deleted input = do
  (level, rest) ← get_level input
  (file, rest₁) ← get_varint64 rest
  some ((level, file), rest₁)

unfoldable pub get_file : Bytes → Option ((ℕ × FileMetaData) × Bytes)
get_file input = do
  (level, rest) ← get_level input
  (file, rest₁) ← get_varint64 rest
  (file_size, rest₂) ← get_varint64 rest₁
  (smallest, rest₃) ← get_internal_key rest₂
  (largest, rest₄) ← get_internal_key rest₃
  some (
    (
      level,
      record { number = file; file_size = file_size; smallest = smallest; largest = largest },
    ),
    rest₄,
  )

-- The outcome of a case of the switch: `msg`, or the edit and the input that is left.
abbrev pub Outcome : Type 0
Outcome = String ⊎ (VersionEdit × Bytes)

abbrev pub then_set : {A : Type 0} → Option (A × Bytes) → String → (A → VersionEdit) → Outcome
then_set none msg f = inl msg
then_set (some (a, rest)) msg f = inr (f a, rest)

unfoldable pub decode_field : Tag → VersionEdit → Bytes → Outcome
decode_field comparator_tag e input =
    then_set (get_length_prefixed_slice input) "comparator name" (set_comparator_name e)
decode_field log_number_tag e input = then_set (get_varint64 input) "log number" (set_log_number e)
decode_field prev_log_number_tag e input =
    then_set (get_varint64 input) "previous log number" (set_prev_log_number e)
decode_field next_file_number_tag e input =
    then_set (get_varint64 input) "next file number" (set_next_file e)
decode_field last_sequence_tag e input =
    then_set (get_varint64 input) "last sequence number" (set_last_sequence e)
decode_field compact_pointer_tag e input =
    then_set (get_pointer input) "compaction pointer" (λ p. set_compact_pointer e p.0 p.1)
decode_field deleted_file_tag e input =
    then_set (get_deleted input) "deleted file" (λ p. remove_file e p.0 p.1)
decode_field new_file_tag e input =
    then_set (get_file input) "new-file entry" (λ p. add_file e p.0 p.1)

-- The loop of `DecodeFrom`: its status, whose message lacks the prefix "VersionEdit: ", and the edit.
-- A round takes a byte at least; `none` is out of fuel.
unfoldable pub decode_loop : (fuel : ℕ) → Bytes → VersionEdit → Option (Status × VersionEdit)
decode_loop zero input e = none
decode_loop (suc fuel) input e = elim (get_varint32 input) [
  | none ↦ some (if length input == 0 then ok else corruption "invalid tag", e)
  | some (n, rest) ↦ elim (tag_of n) [
    | none ↦ some (corruption "unknown tag", e)
    | some t ↦ elim (decode_field t e rest) [
      | inl msg ↦ some (corruption msg, e)
      | inr (e', rest') ↦ decode_loop fuel rest' e'
    ]
  ]
]

unfoldable pub decode_from : Bytes → Option (Status × VersionEdit)
decode_from src = decode_loop (length src + 1) src clear
