-- ===== src/Db/VersionEdit/RoundTrip.antt =====
-- An edit's fields, applied to the cleared edit, give the edit: `DecodeFrom` reads back what `EncodeTo` wrote.
use rally_db.Prelude.{
  ℕ, ◌+◌, ◌<◌, List, [], ◌∷◌, ◌++◌, ◌≡◌, ◌∙◌, refl, ap, Bool, true, false, some, arith, length, All,
  All-append, All-weaken, All-map, append_assoc, append-nil,
}
use rally_db.Util.Status.{ok}
use rally_db.Util.Coding.{Bytes, IsU32, IsU64}
use rally_db.Db.VersionEdit.{
  num_levels, FileMetaData, VersionEdit, clear, before, insert_deleted, set_comparator_name,
  set_log_number, set_prev_log_number, set_next_file, set_last_sequence, set_compact_pointer,
  add_file, remove_file,
}
use rally_db.Db.VersionEdit.Encode.{encode_to}
use rally_db.Db.VersionEdit.Decode.{decode_from}
use rally_db.Db.VersionEdit.Fields.{
  Field, named, log, prev_log, next_file, last_sequence, encode_fields, when, pointers, removals,
  additions, fields, encode_to-fields,
}
use rally_db.Db.VersionEdit.Reads.{
  IsStoredKey, IsStoredFile, IsField, apply, apply_all, decode_loop-encode_fields,
  length-encode_fields,
}

apply_all-append :
    (e : VersionEdit) (fs gs : List Field) → apply_all e (fs ++ gs) ≡ apply_all (apply_all e fs) gs
unfolding apply_all
apply_all-append e [] gs = refl
apply_all-append e (f ∷ fs) gs = apply_all-append (apply e f) fs gs

-- A field that is not set holds what `Clear` put there.
unfoldable pub IsName : Bool → Bytes → Type 0
IsName true s = IsU32 (length s)
IsName false s = s ≡ []

unfoldable pub IsNumber : Bool → ℕ → Type 0
IsNumber true n = IsU64 n
IsNumber false n = n ≡ 0

-- A pair is in front of all those of a list.
abbrev IsLeast : ℕ × ℕ → List (ℕ × ℕ) → Type 0
IsLeast p qs = All (λ q. before p q ≡ true) qs

-- In order, each once.
unfoldable pub IsOrdered : List (ℕ × ℕ) → Type 0
IsOrdered [] = Unit {0}
IsOrdered (p ∷ ps) = IsLeast p ps × IsOrdered ps

-- An edit that can be stored.
pub record IsEdit (e : VersionEdit) : Type 0 where
  pub name_fits : IsName e.has_comparator e.comparator
  pub log_fits : IsNumber e.has_log_number e.log_number
  pub prev_log_fits : IsNumber e.has_prev_log_number e.prev_log_number
  pub next_file_fits : IsNumber e.has_next_file_number e.next_file_number
  pub last_sequence_fits : IsNumber e.has_last_sequence e.last_sequence
  pub pointers_fit : All (λ p. (p.0 < num_levels) × IsStoredKey p.1) e.compact_pointers
  pub deleted_fit : All (λ p. (p.0 < num_levels) × IsU64 p.1) e.deleted_files
  pub new_files_fit : All (λ p. (p.0 < num_levels) × IsStoredFile p.1) e.new_files
  pub deleted_ordered : IsOrdered e.deleted_files

name_set :
    (b : Bool) (s : Bytes) (e : VersionEdit)
    → IsName b s
    → apply_all (record e { has_comparator = false; comparator = [] }) (when b (named s))
      ≡ record e { has_comparator = b; comparator = s }
unfolding apply apply_all IsName set_comparator_name
name_set true s e h = refl
name_set false s e h = rw h refl

log_set :
    (b : Bool) (n : ℕ) (e : VersionEdit)
    → IsNumber b n
    → apply_all (record e { has_log_number = false; log_number = 0 }) (when b (log n))
      ≡ record e { has_log_number = b; log_number = n }
unfolding apply apply_all IsNumber set_log_number
log_set true n e h = refl
log_set false n e h = rw h refl

prev_log_set :
    (b : Bool) (n : ℕ) (e : VersionEdit)
    → IsNumber b n
    → apply_all
        (record e { has_prev_log_number = false; prev_log_number = 0 })
        (when b (prev_log n))
      ≡ record e { has_prev_log_number = b; prev_log_number = n }
unfolding apply apply_all IsNumber set_prev_log_number
prev_log_set true n e h = refl
prev_log_set false n e h = rw h refl

next_file_set :
    (b : Bool) (n : ℕ) (e : VersionEdit)
    → IsNumber b n
    → apply_all
        (record e { has_next_file_number = false; next_file_number = 0 })
        (when b (next_file n))
      ≡ record e { has_next_file_number = b; next_file_number = n }
unfolding apply apply_all IsNumber set_next_file
next_file_set true n e h = refl
next_file_set false n e h = rw h refl

last_sequence_set :
    (b : Bool) (n : ℕ) (e : VersionEdit)
    → IsNumber b n
    → apply_all
        (record e { has_last_sequence = false; last_sequence = 0 })
        (when b (last_sequence n))
      ≡ record e { has_last_sequence = b; last_sequence = n }
unfolding apply apply_all IsNumber set_last_sequence
last_sequence_set true n e h = refl
last_sequence_set false n e h = rw h refl

pointers_set :
    (e : VersionEdit) (ps : List (ℕ × Bytes))
    → apply_all e (pointers ps) ≡ record e { compact_pointers = e.compact_pointers ++ ps }
unfolding apply apply_all set_compact_pointer
pointers_set e [] = rw (append-nil e.compact_pointers) refl
pointers_set e ((level, key) ∷ ps) =
    rw (pointers_set (set_compact_pointer e level key) ps, append_assoc) refl

additions_set :
    (e : VersionEdit) (ps : List (ℕ × FileMetaData))
    → apply_all e (additions ps) ≡ record e { new_files = e.new_files ++ ps }
unfolding apply apply_all add_file
additions_set e [] = rw (append-nil e.new_files) refl
additions_set e ((level, f) ∷ ps) = rw (additions_set (add_file e level f) ps, append_assoc) refl

-- An insertion behind all others.
insert_last :
    (p : ℕ × ℕ) (qs : List (ℕ × ℕ))
    → All (λ q. before q p ≡ true) qs
    → insert_deleted p qs ≡ qs ++ (p ∷ [])
unfolding insert_deleted
insert_last p [] h = refl
insert_last (a, b) ((c, d) ∷ qs) (front, h) =
    let not_before : before (a, b) (c, d) ≡ false = ground arith in
    rw (not_before, front, insert_last (a, b) qs h) refl

removals_set :
    (e : VersionEdit) (ps : List (ℕ × ℕ))
    → All (λ q. IsLeast q ps) e.deleted_files
    → IsOrdered ps
    → apply_all e (removals ps) ≡ record e { deleted_files = e.deleted_files ++ ps }
unfolding apply apply_all remove_file IsOrdered
removals_set e [] h o = rw (append-nil e.deleted_files) refl
removals_set e ((level, file) ∷ ps) h (least, o) =
    let p : ℕ × ℕ = (level, file) in
    let last : insert_deleted p e.deleted_files ≡ e.deleted_files ++ (p ∷ []) =
      insert_last p e.deleted_files
        (All-weaken (λ q. IsLeast q (p ∷ ps)) _ e.deleted_files (λ q l. l.0) h) in
    let behind : All (λ q. IsLeast q ps) (insert_deleted p e.deleted_files) = rw last (
      All-append (λ q. IsLeast q ps) e.deleted_files (p ∷ [])
        (All-weaken (λ q. IsLeast q (p ∷ ps)) _ e.deleted_files (λ q l. l.1) h) (least, tt)) in
    rw (removals_set (remove_file e level file) ps behind o, last, append_assoc) refl

name-IsField : (b : Bool) (s : Bytes) → IsName b s → All IsField (when b (named s))
unfolding IsName IsField
name-IsField true s h = (h, tt)
name-IsField false s h = tt

number-IsField :
    (f : ℕ → Field) (b : Bool) (n : ℕ)
    → (IsU64 n → IsField (f n))
    → IsNumber b n
    → All IsField (when b (f n))
unfolding IsNumber
number-IsField f true n k h = (k h, tt)
number-IsField f false n k h = tt

fields-IsField : (e : VersionEdit) → IsEdit e → All IsField (fields e)
unfolding fields IsField
fields-IsField e is =
    All-append IsField _ _ (name-IsField e.has_comparator e.comparator is.name_fits) (
      All-append IsField _ _ (number-IsField log e.has_log_number e.log_number (λ h. h) is.log_fits)
        (All-append IsField _ _
          (number-IsField prev_log e.has_prev_log_number e.prev_log_number (λ h. h)
            is.prev_log_fits)
          (All-append IsField _ _
            (number-IsField next_file e.has_next_file_number e.next_file_number (λ h. h)
              is.next_file_fits)
            (All-append IsField _ _
              (number-IsField last_sequence e.has_last_sequence e.last_sequence (λ h. h)
                is.last_sequence_fits)
              (All-append IsField _ _
                (All-map _ IsField _ e.compact_pointers (λ p h. h) is.pointers_fit)
                (All-append IsField _ _
                  (All-map _ IsField _ e.deleted_files (λ p h. h) is.deleted_fit)
                  (All-map _ IsField _ e.new_files (λ p h. h) is.new_files_fit)))))))

-- Some fields, then the others.
then_apply :
    (e e' r : VersionEdit) (fs gs : List Field)
    → apply_all e fs ≡ e'
    → apply_all e' gs ≡ r
    → apply_all e (fs ++ gs) ≡ r
then_apply e e' r fs gs h k = apply_all-append e fs gs ∙ ap (λ x. apply_all x gs) h ∙ k

apply_all-fields : (e : VersionEdit) → IsEdit e → apply_all clear (fields e) ≡ e
unfolding clear fields
apply_all-fields e is =
    let e1 : VersionEdit = record clear {
      has_comparator = e.has_comparator;
      comparator = e.comparator;
    } in
    let e2 : VersionEdit = record e1 {
      has_log_number = e.has_log_number;
      log_number = e.log_number;
    } in
    let e3 : VersionEdit = record e2 {
      has_prev_log_number = e.has_prev_log_number;
      prev_log_number = e.prev_log_number;
    } in
    let e4 : VersionEdit = record e3 {
      has_next_file_number = e.has_next_file_number;
      next_file_number = e.next_file_number;
    } in
    let e5 : VersionEdit = record e4 {
      has_last_sequence = e.has_last_sequence;
      last_sequence = e.last_sequence;
    } in
    let e6 : VersionEdit = record e5 { compact_pointers = e.compact_pointers } in
    let e7 : VersionEdit = record e6 { deleted_files = e.deleted_files } in
    then_apply clear e1 e _ _ (name_set e.has_comparator e.comparator clear is.name_fits) (
      then_apply e1 e2 e _ _ (log_set e.has_log_number e.log_number e1 is.log_fits) (
        then_apply e2 e3 e _ _
          (prev_log_set e.has_prev_log_number e.prev_log_number e2 is.prev_log_fits)
          (then_apply e3 e4 e _ _
            (next_file_set e.has_next_file_number e.next_file_number e3 is.next_file_fits)
            (then_apply e4 e5 e _ _
              (last_sequence_set e.has_last_sequence e.last_sequence e4 is.last_sequence_fits)
              (then_apply e5 e6 e _ _ (pointers_set e5 e.compact_pointers) (
                then_apply e6 e7 e _ _ (removals_set e6 e.deleted_files tt is.deleted_ordered)
                  (additions_set e7 e.new_files)))))))

-- `DecodeFrom` reads back every edit that `EncodeTo` wrote, when its numbers fit 64 bits, its levels are levels, its
-- keys are not empty and its strings are shorter than 2^32 bytes; a field without its flag holds what `Clear` put there.
pub decode_from-encode_to :
    (e : VersionEdit) → IsEdit e → decode_from (encode_to [] e) ≡ some (ok, e)
unfolding decode_from
decode_from-encode_to e is =
    let bytes : encode_to [] e ≡ encode_fields (fields e) = encode_to-fields [] e in
    rw
      (
        bytes,
        decode_loop-encode_fields (length (encode_fields (fields e)) + 1) (fields e) clear
            (fields-IsField e is) (omega (arith, length-encode_fields (fields e))),
        apply_all-fields e is,
      )
      refl
