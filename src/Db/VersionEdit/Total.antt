-- ===== src/Db/VersionEdit/Total.antt =====
-- `DecodeFrom` of db/version_edit.cc returns on every input.
use rally_db.Prelude.{
  ℕ, zero, suc, ◌+◌, ◌<◌, ◌≤◌, ◌≡◌, ◌≢◌, refl, none, some, inl, inr, arith, Option, Option-cases,
  Sum-cases, length, ltb, ◌==◌, true, false, ◌>>=◌, Bool, if◌then◌else◌,
}
use rally_db.Util.Coding.{Bytes, get_varint32, get_varint64, get_length_prefixed_slice}
use rally_db.Util.Coding.Takes.{
  get_varint32_takes, get_varint64_takes, get_length_prefixed_slice_takes,
}
use rally_db.Db.VersionEdit.{
  Tag, comparator_tag, log_number_tag, next_file_number_tag, last_sequence_tag, compact_pointer_tag,
  deleted_file_tag, new_file_tag, prev_log_number_tag, VersionEdit, num_levels, tag_of, clear,
}
use rally_db.Db.VersionEdit.Decode.{
  Outcome, then_set, get_internal_key, get_level, get_pointer, get_deleted, get_file, decode_field,
  decode_loop, decode_from,
}
use Prim.Native.String.{String}

-- A read that succeeds leaves less than `n` bytes.
abbrev Leaves : {A : Type 0} → ℕ → Option (A × Bytes) → Type 0
Leaves {A = A} n o = (a : A) (rest : Bytes) → o ≡ some (a, rest) → length rest < n

bind-Leaves :
    {A B : Type 0} (n : ℕ) (o : Option (A × Bytes)) (f : A × Bytes → Option (B × Bytes))
    → Leaves n o
    → ((a : A) (rest : Bytes) → length rest < n → Leaves n (f (a, rest)))
    → Leaves n (o >>= f)
bind-Leaves n none f h k b rest e = cc
bind-Leaves n (some (a, r)) f h k b rest e = k a r (h a r refl) b rest e

some-Leaves : {A : Type 0} (n : ℕ) (a : A) (r : Bytes) → length r < n → Leaves n (some (a, r))
some-Leaves n a r lt a' rest e = ground arith

test-Leaves :
    {A : Type 0} (n : ℕ) (b : Bool) (o : Option (A × Bytes))
    → Leaves n o
    → Leaves n (if b then none else o)
test-Leaves n true o h a rest e = cc
test-Leaves n false o h a rest e = h a rest e

guard-Leaves :
    {A : Type 0} (n : ℕ) (b : Bool) (o : Option (A × Bytes))
    → Leaves n o
    → Leaves n (if b then o else none)
guard-Leaves n true o h a rest e = h a rest e
guard-Leaves n false o h a rest e = cc

varint32-Leaves : (n : ℕ) (src : Bytes) → length src ≤ n → Leaves n (get_varint32 src)
varint32-Leaves n src h v rest e = omega (arith, get_varint32_takes src v rest e)

varint64-Leaves : (n : ℕ) (src : Bytes) → length src ≤ n → Leaves n (get_varint64 src)
varint64-Leaves n src h v rest e = omega (arith, get_varint64_takes src v rest e)

slice-Leaves : (n : ℕ) (src : Bytes) → length src ≤ n → Leaves n (get_length_prefixed_slice src)
slice-Leaves n src h s rest e = omega (arith, get_length_prefixed_slice_takes src s rest e)

key-Leaves : (n : ℕ) (src : Bytes) → length src ≤ n → Leaves n (get_internal_key src)
unfolding get_internal_key
key-Leaves n src h =
    bind-Leaves n (get_length_prefixed_slice src) _ (slice-Leaves n src h) (λ str rest lt.
      test-Leaves n (length str == 0) (some (str, rest)) (some-Leaves n str rest lt))

level-Leaves : (n : ℕ) (src : Bytes) → length src ≤ n → Leaves n (get_level src)
unfolding get_level
level-Leaves n src h =
    bind-Leaves n (get_varint32 src) _ (varint32-Leaves n src h)
      (λ v rest lt. guard-Leaves n (ltb v num_levels) (some (v, rest)) (some-Leaves n v rest lt))

pointer-Leaves : (n : ℕ) (src : Bytes) → length src ≤ n → Leaves n (get_pointer src)
unfolding get_pointer
pointer-Leaves n src h = bind-Leaves n (get_level src) _ (level-Leaves n src h) (λ level rest lt.
    bind-Leaves n (get_internal_key rest) _ (key-Leaves n rest (omega arith))
      (λ key rest₁ lt₁. some-Leaves n (level, key) rest₁ lt₁))

deleted-Leaves : (n : ℕ) (src : Bytes) → length src ≤ n → Leaves n (get_deleted src)
unfolding get_deleted
deleted-Leaves n src h = bind-Leaves n (get_level src) _ (level-Leaves n src h) (λ level rest lt.
    bind-Leaves n (get_varint64 rest) _ (varint64-Leaves n rest (omega arith))
      (λ file rest₁ lt₁. some-Leaves n (level, file) rest₁ lt₁))

file-Leaves : (n : ℕ) (src : Bytes) → length src ≤ n → Leaves n (get_file src)
unfolding get_file
file-Leaves n src h = bind-Leaves n (get_level src) _ (level-Leaves n src h) (λ level rest lt.
    bind-Leaves n (get_varint64 rest) _ (varint64-Leaves n rest (omega arith)) (λ file rest₁ lt₁.
      bind-Leaves n (get_varint64 rest₁) _ (varint64-Leaves n rest₁ (omega arith))
        (λ size rest₂ lt₂.
          bind-Leaves n (get_internal_key rest₂) _ (key-Leaves n rest₂ (omega arith))
            (λ smallest rest₃ lt₃.
              bind-Leaves n (get_internal_key rest₃) _ (key-Leaves n rest₃ (omega arith))
                (λ largest rest₄ lt₄. some-Leaves n _ rest₄ lt₄)))))

-- A case of the switch does not lengthen the input.
abbrev Shrinks : ℕ → Outcome → Type 0
Shrinks n o = (e : VersionEdit) (rest : Bytes) → o ≡ inr (e, rest) → length rest < n

set-Shrinks :
    {A : Type 0} (n : ℕ) (o : Option (A × Bytes)) (msg : String) (f : A → VersionEdit)
    → Leaves n o
    → Shrinks n (then_set o msg f)
set-Shrinks n none msg f h e rest eq = cc
set-Shrinks n (some (a, r)) msg f h e rest eq = ground (arith, h a r refl)

field-Shrinks :
    (t : Tag) (e : VersionEdit) (n : ℕ) (src : Bytes)
    → length src ≤ n
    → Shrinks n (decode_field t e src)
unfolding decode_field
field-Shrinks comparator_tag e n src h =
    set-Shrinks n (get_length_prefixed_slice src) _ _ (slice-Leaves n src h)
field-Shrinks log_number_tag e n src h =
    set-Shrinks n (get_varint64 src) _ _ (varint64-Leaves n src h)
field-Shrinks prev_log_number_tag e n src h =
    set-Shrinks n (get_varint64 src) _ _ (varint64-Leaves n src h)
field-Shrinks next_file_number_tag e n src h =
    set-Shrinks n (get_varint64 src) _ _ (varint64-Leaves n src h)
field-Shrinks last_sequence_tag e n src h =
    set-Shrinks n (get_varint64 src) _ _ (varint64-Leaves n src h)
field-Shrinks compact_pointer_tag e n src h =
    set-Shrinks n (get_pointer src) _ _ (pointer-Leaves n src h)
field-Shrinks deleted_file_tag e n src h =
    set-Shrinks n (get_deleted src) _ _ (deleted-Leaves n src h)
field-Shrinks new_file_tag e n src h = set-Shrinks n (get_file src) _ _ (file-Leaves n src h)

decode_loop-ne-none :
    (fuel : ℕ) (input : Bytes) (e : VersionEdit)
    → length input < fuel
    → decode_loop fuel input e ≢ none
unfolding decode_loop
decode_loop-ne-none zero input e h = absurd (omega arith)
decode_loop-ne-none (suc fuel) input e h = elim (Option-cases (get_varint32 input)) [
  | inl done ↦ rw (decode_loop, done) (λ eq. cc)
  | inr ((n, rest), hit) ↦ elim (Option-cases (tag_of n)) [
    | inl unknown ↦ rw (decode_loop, hit, unknown) (λ eq. cc)
    | inr (t, known) ↦
        let shorter = get_varint32_takes input n rest hit in
        elim (Sum-cases (decode_field t e rest)) [
          | inl (msg, failed) ↦ rw (decode_loop, hit, known, failed) (λ eq. cc)
          | inr ((e', rest'), done) ↦
              let left = field-Shrinks t e (length input) rest (omega arith) e' rest' done in
              rw (decode_loop, hit, known, done) (decode_loop-ne-none fuel rest' e' (omega arith))
        ]
  ]
]

-- `DecodeFrom` returns a status on every byte string.
pub decode_from-ne-none : (src : Bytes) → decode_from src ≢ none
unfolding decode_from
decode_from-ne-none src = decode_loop-ne-none (length src + 1) src clear (omega arith)
