-- ===== src/Db/VersionEdit/Reads.antt =====
-- The loop of `DecodeFrom` on the bytes of fields.
use rally_db.Prelude.{
  ℕ, zero, suc, ◌≤◌, ◌<◌, List, [], ◌∷◌, ◌++◌, ◌≡◌, ◌∙◌, refl, Option-cases, true, false, none,
  some, ltb, ◌==◌, inl, inr, arith, length, length-append, All, append_assoc,
}
use rally_db.Util.Status.{ok}
use rally_db.Util.Coding.{
  Bytes, IsU32, IsU64, put_varint32, put_varint64, put_length_prefixed_slice, get_varint32,
}
use rally_db.Util.Coding.RoundTrip.{
  get_varint32-put_varint32, get_varint64-put_varint64, get-put_length_prefixed_slice,
}
use rally_db.Util.Coding.Takes.{get_varint32_takes}
use rally_db.Db.VersionEdit.{
  Tag, comparator_tag, log_number_tag, next_file_number_tag, last_sequence_tag, compact_pointer_tag,
  deleted_file_tag, new_file_tag, prev_log_number_tag, number, tag_of, num_levels, FileMetaData,
  VersionEdit, set_comparator_name, set_log_number, set_prev_log_number, set_next_file,
  set_last_sequence, set_compact_pointer, add_file, remove_file,
}
use rally_db.Db.VersionEdit.Decode.{
  get_internal_key, get_level, get_pointer, get_deleted, get_file, decode_field, decode_loop,
}
use rally_db.Db.VersionEdit.Fields.{
  Field, named, log, prev_log, next_file, last_sequence, pointer, removed, added, encode_field,
  encode_fields,
}

-- A key that can be stored.
abbrev pub IsStoredKey : Bytes → Type 0
IsStoredKey key = (0 < length key) × IsU32 (length key)

abbrev pub IsStoredFile : FileMetaData → Type 0
IsStoredFile f = IsU64 f.number × IsU64 f.file_size × IsStoredKey f.smallest × IsStoredKey f.largest

-- A field that can be stored.
unfoldable pub IsField : Field → Type 0
IsField (named s) = IsU32 (length s)
IsField (log n) = IsU64 n
IsField (prev_log n) = IsU64 n
IsField (next_file n) = IsU64 n
IsField (last_sequence n) = IsU64 n
IsField (pointer level key) = (level < num_levels) × IsStoredKey key
IsField (removed level file) = (level < num_levels) × IsU64 file
IsField (added level f) = (level < num_levels) × IsStoredFile f

-- What a field does to an edit.
unfoldable pub apply : VersionEdit → Field → VersionEdit
apply e (named s) = set_comparator_name e s
apply e (log n) = set_log_number e n
apply e (prev_log n) = set_prev_log_number e n
apply e (next_file n) = set_next_file e n
apply e (last_sequence n) = set_last_sequence e n
apply e (pointer level key) = set_compact_pointer e level key
apply e (removed level file) = remove_file e level file
apply e (added level f) = add_file e level f

unfoldable pub apply_all : VersionEdit → List Field → VersionEdit
apply_all e [] = e
apply_all e (f ∷ fs) = apply_all (apply e f) fs

-- The reads of the parts of a field.
get_level_lem :
    (level : ℕ) (rest : Bytes)
    → level < num_levels
    → get_level (put_varint32 [] level ++ rest) ≡ some (level, rest)
unfolding get_level
get_level_lem level rest h =
    let small : ltb level num_levels ≡ true = ground arith in
    rw (get_varint32-put_varint32 level rest (omega arith), small) refl

get_internal_key_lem :
    (key rest : Bytes)
    → IsStoredKey key
    → get_internal_key (put_length_prefixed_slice [] key ++ rest) ≡ some (key, rest)
unfolding get_internal_key
get_internal_key_lem key rest (some_bytes, short) =
    let filled : (length key == 0) ≡ false = ground arith in
    rw (get-put_length_prefixed_slice key rest short, filled) refl

get_pointer_lem :
    (level : ℕ) (key rest : Bytes)
    → level < num_levels
    → IsStoredKey key
    → get_pointer ((put_varint32 [] level ++ put_length_prefixed_slice [] key) ++ rest)
      ≡ some ((level, key), rest)
unfolding get_pointer
get_pointer_lem level key rest small stored =
    rw
      (
        append_assoc,
        get_level_lem level (put_length_prefixed_slice [] key ++ rest) small,
        get_internal_key_lem key rest stored,
      )
      refl

get_deleted_lem :
    (level file : ℕ) (rest : Bytes)
    → level < num_levels
    → IsU64 file
    → get_deleted ((put_varint32 [] level ++ put_varint64 [] file) ++ rest)
      ≡ some ((level, file), rest)
unfolding get_deleted
get_deleted_lem level file rest small fits =
    rw
      (
        append_assoc,
        get_level_lem level (put_varint64 [] file ++ rest) small,
        get_varint64-put_varint64 file rest fits,
      )
      refl

get_file_lem :
    (level : ℕ) (f : FileMetaData) (rest : Bytes)
    → level < num_levels
    → IsStoredFile f
    → get_file (
        (put_varint32 [] level
          ++ (put_varint64 [] f.number
              ++ (put_varint64 [] f.file_size
                  ++ (put_length_prefixed_slice [] f.smallest
                      ++ put_length_prefixed_slice [] f.largest))))
        ++ rest)
      ≡ some ((level, f), rest)
unfolding get_file
get_file_lem level f rest small (num, size, lo, hi) =
    let e = put_length_prefixed_slice [] f.largest ++ rest in
    let d = put_length_prefixed_slice [] f.smallest ++ e in
    let c = put_varint64 [] f.file_size ++ d in
    let b = put_varint64 [] f.number ++ c in
    rw
      (
        append_assoc,
        append_assoc,
        append_assoc,
        append_assoc,
        get_level_lem level b small,
        get_varint64-put_varint64 f.number c num,
        get_varint64-put_varint64 f.file_size d size,
        get_internal_key_lem f.smallest e lo,
        get_internal_key_lem f.largest rest hi,
      )
      refl

-- The tag, and then the case of the switch.
tag_of-number : (t : Tag) → (tag_of (number t) ≡ some t) × (number t < 10)
unfolding tag_of
tag_of-number comparator_tag = (refl, omega arith)
tag_of-number log_number_tag = (refl, omega arith)
tag_of-number next_file_number_tag = (refl, omega arith)
tag_of-number last_sequence_tag = (refl, omega arith)
tag_of-number compact_pointer_tag = (refl, omega arith)
tag_of-number deleted_file_tag = (refl, omega arith)
tag_of-number new_file_tag = (refl, omega arith)
tag_of-number prev_log_number_tag = (refl, omega arith)

tagged :
    (fuel : ℕ) (t : Tag) (body rest : Bytes) (e e' : VersionEdit)
    → decode_field t e (body ++ rest) ≡ inr (e', rest)
    → decode_loop (suc fuel) ((put_varint32 [] (number t) ++ body) ++ rest) e
      ≡ decode_loop fuel rest e'
unfolding decode_loop
tagged fuel t body rest e e' h =
    let (known, small) = tag_of-number t in
    rw
      (
        append_assoc,
        decode_loop,
        get_varint32-put_varint32 (number t) (body ++ rest) (omega arith),
        known,
        h,
      )
      refl

decode_loop-encode_field :
    (fuel : ℕ) (f : Field) (rest : Bytes) (e : VersionEdit)
    → IsField f
    → decode_loop (suc fuel) (encode_field f ++ rest) e ≡ decode_loop fuel rest (apply e f)
unfolding encode_field apply IsField decode_field
decode_loop-encode_field fuel (named s) rest e h =
    tagged fuel comparator_tag _ rest e _ (rw (get-put_length_prefixed_slice s rest h) refl)
decode_loop-encode_field fuel (log n) rest e h =
    tagged fuel log_number_tag _ rest e _ (rw (get_varint64-put_varint64 n rest h) refl)
decode_loop-encode_field fuel (prev_log n) rest e h =
    tagged fuel prev_log_number_tag _ rest e _ (rw (get_varint64-put_varint64 n rest h) refl)
decode_loop-encode_field fuel (next_file n) rest e h =
    tagged fuel next_file_number_tag _ rest e _ (rw (get_varint64-put_varint64 n rest h) refl)
decode_loop-encode_field fuel (last_sequence n) rest e h =
    tagged fuel last_sequence_tag _ rest e _ (rw (get_varint64-put_varint64 n rest h) refl)
decode_loop-encode_field fuel (pointer level key) rest e h =
    tagged fuel compact_pointer_tag _ rest e _ (rw (get_pointer_lem level key rest h.0 h.1) refl)
decode_loop-encode_field fuel (removed level file) rest e h =
    tagged fuel deleted_file_tag _ rest e _ (rw (get_deleted_lem level file rest h.0 h.1) refl)
decode_loop-encode_field fuel (added level f) rest e h =
    tagged fuel new_file_tag _ rest e _ (rw (get_file_lem level f rest h.0 h.1) refl)

-- The whole of the fields.
tag_takes : (n : ℕ) (body : Bytes) → n < 10 → 0 < length (put_varint32 [] n ++ body)
tag_takes n body h = omega (
  arith,
  get_varint32_takes (put_varint32 [] n ++ body) n body
      (get_varint32-put_varint32 n body (omega arith)),
)

length-encode_field : (f : Field) → 0 < length (encode_field f)
unfolding encode_field
length-encode_field (named s) = tag_takes 1 (put_length_prefixed_slice [] s) (omega arith)
length-encode_field (log n) = tag_takes 2 (put_varint64 [] n) (omega arith)
length-encode_field (prev_log n) = tag_takes 9 (put_varint64 [] n) (omega arith)
length-encode_field (next_file n) = tag_takes 3 (put_varint64 [] n) (omega arith)
length-encode_field (last_sequence n) = tag_takes 4 (put_varint64 [] n) (omega arith)
length-encode_field (pointer level key) = tag_takes 5 _ (omega arith)
length-encode_field (removed level file) = tag_takes 6 _ (omega arith)
length-encode_field (added level f) = tag_takes 7 _ (omega arith)

pub length-encode_fields : (fs : List Field) → length fs ≤ length (encode_fields fs)
unfolding encode_fields
length-encode_fields [] = omega arith
length-encode_fields (f ∷ fs) = omega (
  arith,
  length-append (encode_field f) (encode_fields fs),
  length-encode_field f,
  length-encode_fields fs,
)

nothing_left : get_varint32 [] ≡ none
nothing_left = elim (Option-cases (get_varint32 [])) [
  | inl miss ↦ miss
  | inr ((n, rest), hit) ↦ absurd (omega (arith, get_varint32_takes [] n rest hit))
]

pub decode_loop-encode_fields :
    (fuel : ℕ) (fs : List Field) (e : VersionEdit)
    → All IsField fs
    → length fs < fuel
    → decode_loop fuel (encode_fields fs) e ≡ some (ok, apply_all e fs)
unfolding encode_fields apply_all decode_loop
decode_loop-encode_fields zero fs e h lt = absurd (omega arith)
decode_loop-encode_fields (suc fuel) [] e h lt = rw (decode_loop, nothing_left) refl
decode_loop-encode_fields (suc fuel) (f ∷ fs) e h lt =
    decode_loop-encode_field fuel f (encode_fields fs) e h.0
    ∙ decode_loop-encode_fields fuel fs (apply e f) h.1 (omega arith)
