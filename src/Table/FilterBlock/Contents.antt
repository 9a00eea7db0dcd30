-- ===== src/Table/FilterBlock/Contents.antt =====
-- The contents of a filter block: what the constructor of `FilterBlockReader` finds in the bytes that
-- `Finish` wrote.
use rally_db.Prelude.{
  ℕ, zero, suc, ◌+◌, ◌-◌, ◌*◌, ◌%◌, ◌^◌, ◌<◌, List, [], ◌∷◌, ◌++◌, ◌≡◌, ◌≤◌, ◌∙◌, refl, sym, ap,
  false, arith, ltb, length, length-append, append_assoc, append-nil, get_or, drop, drop_behind,
  last_of_append, All, All-append,
}
use rally_db.Util.Coding.{
  Bytes, IsU32, encode_fixed32, encode_fixed64, decode_fixed32, put_fixed32, put_fixed64,
}
use rally_db.Util.Coding.Fixed.{
  decode_fixed32-encode_fixed32, decode_fixed64-encode_fixed64, length-encode_fixed32,
  length-encode_fixed64,
}
use rally_db.Table.FilterBlock.Builder.{FilterBlockBuilder, put_offsets, unit_size, finish}
use rally_db.Table.FilterBlock.Reader.{FilterBlockReader, new_reader}

-- The offsets, four bytes each.
unfoldable pub table : List ℕ → Bytes
table [] = []
table (o ∷ os) = encode_fixed32 o ++ table os

-- What `Finish` writes behind the offsets.
abbrev pub tail : (offset size : ℕ) → Bytes
tail offset size =
    encode_fixed64 offset
    ++ (encode_fixed32 (size % 2 ^ 32) ++ (encode_fixed32 2 ++ (encode_fixed32 6 ++ (11 ∷ []))))

put_offsets-table : (dst : Bytes) (os : List ℕ) → put_offsets dst os ≡ dst ++ table os
unfolding put_offsets table put_fixed32
put_offsets-table dst [] = sym (append-nil dst)
put_offsets-table dst (o ∷ os) = rw (put_offsets-table (put_fixed32 dst o) os) (simp append_assoc)

length-table : (os : List ℕ) → length (table os) ≡ length os * 4
unfolding table
length-table [] = refl
length-table (o ∷ os) =
    omega
      (arith, length-append (encode_fixed32 o) (table os), length-encode_fixed32 o, length-table os)

table-append : (os : List ℕ) (o : ℕ) → table (os ++ (o ∷ [])) ≡ table os ++ encode_fixed32 o
unfolding table
table-append [] o = append-nil (encode_fixed32 o)
table-append (x ∷ os) o = rw (table-append os o) (simp append_assoc)

pub finish-table :
    (b : FilterBlockBuilder) (offset size : ℕ)
    → b.result ≡ []
    → finish b offset size
      ≡ table (b.filter_offsets ++ (unit_size b.filter_units ∷ [])) ++ tail offset size
unfolding finish put_fixed32 put_fixed64
finish-table b offset size e =
    rw
      (
        put_offsets-table b.result b.filter_offsets,
        e,
        table-append b.filter_offsets (unit_size b.filter_units),
      )
      (simp append_assoc)

-- The offset at an index.
pub decode_table :
    (os : List ℕ) (rest : Bytes) (i : ℕ)
    → All IsU32 os
    → i < length os
    → decode_fixed32 (drop (i * 4) (table os ++ rest)) ≡ get_or os i 0
unfolding table encode_fixed32
decode_table [] rest i h lt = absurd (omega arith)
decode_table (o ∷ os) rest zero h lt =
    rw append_assoc (decode_fixed32-encode_fixed32 o (table os ++ rest) h.0)
decode_table (o ∷ os) rest (suc i) h lt =
    let four : suc i * 4 ≡ suc (suc (suc (suc (i * 4)))) = omega arith in
    let rest_table = decode_table os rest i h.1 (omega arith) in rw four rest_table

-- The fields that the constructor sets.
abbrev pub Opened : FilterBlockReader → Bytes → (number offset size : ℕ) → Type 0
Opened r contents number offset size =
    (r.base_lg ≡ 11)
    × (r.num ≡ number)
    × (r.disk_size ≡ size)
    × (r.offset ≡ contents)
    × (r.disk_offset ≡ offset)
    × (r.init_units_number ≡ 2)
    × (r.all_units_number ≡ 6)

opened :
    (memory : FilterBlockReader) (front : Bytes) (number offset size file : ℕ)
    → length front ≡ number * 4 + 4
    → size < 2 ^ 32
    → offset < 2 ^ 64
    → Opened
        (new_reader memory (front ++ tail offset size) file)
        (front ++ tail offset size)
        number
        offset
        size
unfolding new_reader
opened memory front number offset size file e small place =
    let a = encode_fixed64 offset in
    let b = encode_fixed32 (size % 2 ^ 32) in
    let c = encode_fixed32 2 in
    let d = encode_fixed32 6 in
    let all : Bytes = front ++ (a ++ (b ++ (c ++ (d ++ (11 ∷ []))))) in
    let n : length all ≡ number * 4 + 25 = omega (
      arith,
      e,
      length-append front (tail offset size),
      length-append a (b ++ (c ++ (d ++ (11 ∷ [])))),
      length-append b (c ++ (d ++ (11 ∷ []))),
      length-append c (d ++ (11 ∷ [])),
      length-append d (11 ∷ []),
      length-encode_fixed64 offset,
      length-encode_fixed32 (size % 2 ^ 32),
      length-encode_fixed32 2,
      length-encode_fixed32 6,
    ) in
    let long : ltb (length all) 25 ≡ false = ground arith in
    let a_len = length-encode_fixed64 offset in
    let b_len = length-encode_fixed32 (size % 2 ^ 32) in
    let fa = length-append front a in
    let fb = length-append (front ++ a) b in
    let fc = length-append ((front ++ a) ++ b) c in
    let fd = length-append (((front ++ a) ++ b) ++ c) d in
    let at_offset =
      drop_behind front (a ++ (b ++ (c ++ (d ++ (11 ∷ []))))) all {n = length all - 21} refl
        (omega arith) in
    let at_size =
      drop_behind (front ++ a) (b ++ (c ++ (d ++ (11 ∷ [])))) all {n = length all - 13}
        (simp append_assoc) (omega arith) in
    let at_init =
      drop_behind ((front ++ a) ++ b) (c ++ (d ++ (11 ∷ []))) all {n = length all - 9}
        (simp append_assoc) (omega arith) in
    let at_all =
      drop_behind (((front ++ a) ++ b) ++ c) (d ++ (11 ∷ [])) all {n = length all - 5}
        (simp append_assoc) (omega (arith, length-encode_fixed32 2)) in
    let before : Bytes = (((front ++ a) ++ b) ++ c) ++ d in
    let split : all ≡ before ++ (11 ∷ []) = simp append_assoc in
    let back : length all - 1 ≡ length before =
      omega (arith, length-encode_fixed32 2, length-encode_fixed32 6) in
    let lg : get_or all (length all - 1) 0 ≡ 11 = rw (back, split) (last_of_append before 11 0) in
    (
      rw (new_reader, long) lg,
      rw (new_reader, long) (omega arith),
      rw
          (
            new_reader,
            long,
            at_size,
            decode_fixed32-encode_fixed32 (size % 2 ^ 32) (c ++ (d ++ (11 ∷ []))) (omega arith),
          )
          (omega arith),
      rw (new_reader, long) refl,
      rw (new_reader, long, at_offset)
          (decode_fixed64-encode_fixed64 offset (b ++ (c ++ (d ++ (11 ∷ [])))) place),
      rw (new_reader, long, at_init)
          (decode_fixed32-encode_fixed32 2 (d ++ (11 ∷ [])) (omega arith)),
      rw (new_reader, long, at_all) (decode_fixed32-encode_fixed32 6 (11 ∷ []) (omega arith)),
    )

-- The fields, on the bytes that `Finish` wrote.
pub new_reader_fields :
    (memory : FilterBlockReader) (b : FilterBlockBuilder) (offset size file : ℕ)
    → b.result ≡ []
    → size < 2 ^ 32
    → offset < 2 ^ 64
    → Opened
        (new_reader memory (finish b offset size) file)
        (finish b offset size)
        (length b.filter_offsets)
        offset
        size
new_reader_fields memory b offset size file e small place =
    let os = b.filter_offsets ++ (unit_size b.filter_units ∷ []) in
    rw (finish-table b offset size e) (
      opened memory (table os) (length b.filter_offsets) offset size file
        (omega
          (arith, length-table os, length-append b.filter_offsets (unit_size b.filter_units ∷ [])))
        small place)

-- The constructor of `FilterBlockReader` finds in the bytes that `Finish` wrote what was put there: the handle and the
-- numbers, and at each index, read as `KeyMayMatch` reads it, the filter offset that the builder held, and behind these the
-- size of a unit. The offsets fit 32 bits, the size too, and nothing was written to the result before.
pub new_reader-finish :
    (memory : FilterBlockReader) (b : FilterBlockBuilder) (offset size file : ℕ)
    → b.result ≡ []
    → All IsU32 b.filter_offsets
    → size < 2 ^ 32
    → offset < 2 ^ 64
    → Opened
        (new_reader memory (finish b offset size) file)
        (finish b offset size)
        (length b.filter_offsets)
        offset
        size
      × ((i : ℕ)
          → i ≤ length b.filter_offsets
          → decode_fixed32 (drop (i * 4) (new_reader memory (finish b offset size) file).offset)
            ≡ get_or (b.filter_offsets ++ (unit_size b.filter_units ∷ [])) i 0)
new_reader-finish memory b offset size file e words small place =
    let fields = new_reader_fields memory b offset size file e small place in
    let os : List ℕ = b.filter_offsets ++ (unit_size b.filter_units ∷ []) in
    let all_words : All IsU32 os =
      All-append IsU32 b.filter_offsets (unit_size b.filter_units ∷ []) words (omega arith, tt) in
    let bytes : (new_reader memory (finish b offset size) file).offset
        ≡ table os ++ tail offset size =
      fields.3 ∙ finish-table b offset size e in
    (
      fields,
      λ i le.
          ap (λ (p : Bytes). decode_fixed32 (drop (i * 4) p)) bytes
          ∙ decode_table os (tail offset size) i all_words
              (omega (arith, length-append b.filter_offsets (unit_size b.filter_units ∷ []))),
    )
