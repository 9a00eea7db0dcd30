-- ===== src/Db/VersionEdit/Fields.antt =====
-- The bytes of an edit as a list of fields, each with its tag in front.
use rally_db.Prelude.{
  ℕ, List, [], ◌∷◌, ◌++◌, ◌≡◌, refl, sym, Bool, true, false, if◌then◌else◌, map, append_assoc,
  append-nil,
}
use rally_db.Util.Coding.{Bytes, put_varint32, put_varint64, put_length_prefixed_slice}
use rally_db.Db.VersionEdit.{FileMetaData, VersionEdit}
use rally_db.Db.VersionEdit.Encode.{put_pointers, put_deleted, put_new_files, encode_to}

pub data Field : Type 0 where
  named : Bytes → Field
  log prev_log next_file last_sequence : ℕ → Field
  pointer : ℕ → Bytes → Field
  removed : ℕ → ℕ → Field
  added : ℕ → FileMetaData → Field

-- A field behind its tag, and its parts one behind the other.
unfoldable pub encode_field : Field → Bytes
encode_field (named s) = put_varint32 [] 1 ++ put_length_prefixed_slice [] s
encode_field (log n) = put_varint32 [] 2 ++ put_varint64 [] n
encode_field (prev_log n) = put_varint32 [] 9 ++ put_varint64 [] n
encode_field (next_file n) = put_varint32 [] 3 ++ put_varint64 [] n
encode_field (last_sequence n) = put_varint32 [] 4 ++ put_varint64 [] n
encode_field (pointer level key) =
    put_varint32 [] 5 ++ (put_varint32 [] level ++ put_length_prefixed_slice [] key)
encode_field (removed level file) =
    put_varint32 [] 6 ++ (put_varint32 [] level ++ put_varint64 [] file)
encode_field (added level f) =
    put_varint32 [] 7
    ++ (put_varint32 [] level
        ++ (put_varint64 [] f.number
            ++ (put_varint64 [] f.file_size
                ++ (put_length_prefixed_slice [] f.smallest
                    ++ put_length_prefixed_slice [] f.largest))))

unfoldable pub encode_fields : List Field → Bytes
encode_fields [] = []
encode_fields (f ∷ fs) = encode_field f ++ encode_fields fs

-- A field that is there when its flag is set.
abbrev pub when : Bool → Field → List Field
when b f = if b then f ∷ [] else []

abbrev pub pointers : List (ℕ × Bytes) → List Field
pointers ps = map (λ p. pointer p.0 p.1) ps

abbrev pub removals : List (ℕ × ℕ) → List Field
removals ps = map (λ p. removed p.0 p.1) ps

abbrev pub additions : List (ℕ × FileMetaData) → List Field
additions ps = map (λ p. added p.0 p.1) ps

unfoldable pub fields : VersionEdit → List Field
fields e =
    when e.has_comparator (named e.comparator)
    ++ (when e.has_log_number (log e.log_number)
        ++ (when e.has_prev_log_number (prev_log e.prev_log_number)
            ++ (when e.has_next_file_number (next_file e.next_file_number)
                ++ (when e.has_last_sequence (last_sequence e.last_sequence)
                    ++ (pointers e.compact_pointers
                        ++ (removals e.deleted_files ++ additions e.new_files))))))

encode_fields-append :
    (fs gs : List Field) → encode_fields (fs ++ gs) ≡ encode_fields fs ++ encode_fields gs
unfolding encode_fields
encode_fields-append [] gs = refl
encode_fields-append (f ∷ fs) gs = rw (encode_fields-append fs gs) (simp append_assoc)

-- The flags.
named_bytes :
    (b : Bool) (dst s : Bytes)
    → (if b then put_length_prefixed_slice (put_varint32 dst 1) s else dst)
      ≡ dst ++ encode_fields (when b (named s))
unfolding put_length_prefixed_slice put_varint32 encode_field encode_fields
named_bytes true dst s = simp (append_assoc, append-nil)
named_bytes false dst s = sym (append-nil dst)

number_bytes :
    (f : ℕ → Field) (tag : ℕ) (b : Bool) (dst : Bytes) (n : ℕ)
    → encode_field (f n) ≡ put_varint32 [] tag ++ put_varint64 [] n
    → (if b then put_varint64 (put_varint32 dst tag) n else dst)
      ≡ dst ++ encode_fields (when b (f n))
unfolding put_varint64 put_varint32 encode_fields
number_bytes f tag true dst n e = rw e (simp (append_assoc, append-nil))
number_bytes f tag false dst n e = sym (append-nil dst)

pointers_bytes :
    (dst : Bytes) (ps : List (ℕ × Bytes)) → put_pointers dst ps ≡ dst ++ encode_fields (pointers ps)
unfolding put_pointers put_length_prefixed_slice put_varint32 encode_field encode_fields
pointers_bytes dst [] = sym (append-nil dst)
pointers_bytes dst ((level, key) ∷ ps) =
    rw (pointers_bytes (put_length_prefixed_slice (put_varint32 (put_varint32 dst 5) level) key) ps)
      (simp append_assoc)

removals_bytes :
    (dst : Bytes) (ps : List (ℕ × ℕ)) → put_deleted dst ps ≡ dst ++ encode_fields (removals ps)
unfolding put_deleted put_varint64 put_varint32 encode_field encode_fields
removals_bytes dst [] = sym (append-nil dst)
removals_bytes dst ((level, file) ∷ ps) =
    rw (removals_bytes (put_varint64 (put_varint32 (put_varint32 dst 6) level) file) ps)
      (simp append_assoc)

additions_bytes :
    (dst : Bytes) (ps : List (ℕ × FileMetaData))
    → put_new_files dst ps ≡ dst ++ encode_fields (additions ps)
unfolding put_new_files put_length_prefixed_slice put_varint64 put_varint32 encode_field
    encode_fields
additions_bytes dst [] = sym (append-nil dst)
additions_bytes dst ((level, f) ∷ ps) =
    let numbers =
      put_varint64 (put_varint64 (put_varint32 (put_varint32 dst 7) level) f.number) f.file_size in
    rw
      (additions_bytes
        (put_length_prefixed_slice (put_length_prefixed_slice numbers f.smallest) f.largest) ps)
      (simp append_assoc)

-- `EncodeTo` writes the fields of the edit, one behind the other.
pub encode_to-fields :
    (dst : Bytes) (e : VersionEdit) → encode_to dst e ≡ dst ++ encode_fields (fields e)
unfolding encode_to fields encode_field
encode_to-fields dst e =
    rw
      (
        additions_bytes,
        removals_bytes,
        pointers_bytes,
        number_bytes last_sequence 4 e.has_last_sequence _ e.last_sequence refl,
        number_bytes next_file 3 e.has_next_file_number _ e.next_file_number refl,
        number_bytes prev_log 9 e.has_prev_log_number _ e.prev_log_number refl,
        number_bytes log 2 e.has_log_number _ e.log_number refl,
        named_bytes e.has_comparator dst e.comparator,
      )
      (simp (append_assoc, encode_fields-append))
