-- ===== src/Tests/Db.antt =====
-- Runs of db/: internal keys, write batches and the log.
use rally_db.Prelude.{
  ℕ, ◌+◌, ◌%◌, ◌^◌, ◌<◌, ◌≤◌, List, [], ◌∷◌, ◌++◌, ◌≡◌, ◌≢◌, refl, true, false, none, some, arith,
  length, ltb, if◌then◌else◌,
}
use rally_db.Util.Status.{Status, ok}
use rally_db.Util.Coding.{Bytes, put_fixed64, encode_fixed64, decode_fixed64}
use rally_db.Util.Comparator.{negative, null, positive, bytewise_comparator, compare}
use rally_db.Util.Crc.{Crc}
use rally_db.Db.Format.{
  value, deletion, ParsedInternalKey, append_internal_key, parse_internal_key, internal_compare,
  internal_shortest_separator, code, pack_sequence_and_type, extract_tag, extract_user_key,
}
use rally_db.Db.Format.Parse.{append-parse_internal_key}
use rally_db.Db.Format.Order.{packed, order, internal_compare_lem, internal_separator_bounds}
use rally_db.Db.WriteBatch.{put, append, iterate, inserter, insert_into}
use rally_db.Db.WriteBatch.Abstract.{Update, puts, deletes, batch, put-batch, append-batch}
use rally_db.Db.WriteBatch.RoundTrip.{numbered, insert_into-batch}
use rally_db.Db.WriteBatch.Total.{iterate-ne-none}
use rally_db.Db.Log.Writer.{WritableFile, Writer, add_record, record_header}
use rally_db.Db.Log.Reader.{SequentialFile, Reader, read_physical_record}
use rally_db.Db.Log.Physical.{read_physical_record-record_header}
use rally_db.Db.Log.Rounds.{read_physical_record-ne-none}
use rally_db.Db.Log.Total.{add_record_total}

abbrev a_at_7 : ParsedInternalKey
a_at_7 = record { user_key = 97 ∷ []; sequence = 7; type = value }

abbrev c_at_5 : ParsedInternalKey
c_at_5 = record { user_key = 99 ∷ []; sequence = 5; type = deletion }

abbrev a_at_7_bytes : Bytes
a_at_7_bytes = 97 ∷ 1 ∷ 7 ∷ 0 ∷ 0 ∷ 0 ∷ 0 ∷ 0 ∷ 0 ∷ []

a_at_7_packed : append_internal_key [] a_at_7 ≡ a_at_7_bytes
unfolding append_internal_key put_fixed64 encode_fixed64 pack_sequence_and_type
a_at_7_packed = refl

a_at_7_parsed : parse_internal_key a_at_7_bytes ≡ some a_at_7
unfolding parse_internal_key extract_tag extract_user_key decode_fixed64
a_at_7_parsed = refl

append-parse_internal_key_example : append_internal_key [] a_at_7 ≡ a_at_7_bytes
append-parse_internal_key_example =
    append-parse_internal_key a_at_7_bytes a_at_7
      (
        omega arith,
        (
          omega arith,
          (
            omega arith,
            (
              omega arith,
              (omega arith, (omega arith, (omega arith, (omega arith, (omega arith, tt))))),
            ),
          ),
        ),
      )
      a_at_7_parsed

internal_compare_lem_example :
    internal_compare bytewise_comparator (packed a_at_7) (packed a_at_7)
    ≡ elim (bytewise_comparator.cmp (97 ∷ []) (97 ∷ [])) [
      | null ↦
          if ltb 7 7
          then negative
          else if ltb 7 7
          then positive
          else if ltb (code value) (code value)
          then negative
          else if ltb (code value) (code value)
          then positive
          else null
      | r ↦ r
    ]
internal_compare_lem_example =
    internal_compare_lem bytewise_comparator a_at_7 a_at_7 (omega arith) (omega arith)

a_first : order (packed a_at_7) (packed c_at_5) ≡ negative
unfolding internal_compare append_internal_key put_fixed64 encode_fixed64 pack_sequence_and_type
    extract_user_key extract_tag bytewise_comparator compare
a_first = refl

internal_separator_bounds_example :
    let s = internal_shortest_separator bytewise_comparator (packed a_at_7) (packed c_at_5) in
    (order (packed a_at_7) s ≢ positive)
    × (order s (packed c_at_5) ≡ negative)
    × (length s ≤ length (packed a_at_7))
internal_separator_bounds_example =
    internal_separator_bounds a_at_7 (omega arith) c_at_5 (omega arith) a_first

abbrev updates : List Update
updates = puts (1 ∷ []) (2 ∷ []) ∷ deletes (3 ∷ []) ∷ []

put-batch_example :
    put (batch 100 updates) (4 ∷ []) (5 ∷ []) ≡ batch 100 (updates ++ (puts (4 ∷ []) (5 ∷ []) ∷ []))
put-batch_example = put-batch 100 updates (omega arith) (4 ∷ []) (5 ∷ [])

append-batch_example : append (batch 100 updates) (batch 7 updates) ≡ batch 100 (updates ++ updates)
append-batch_example = append-batch 100 7 updates updates (omega arith)

insert_into-batch_example : insert_into (batch 100 updates) ≡ some (ok, (102, numbered 100 updates))
insert_into-batch_example =
    insert_into-batch 100 updates ((omega arith, omega arith), (omega arith, tt)) (omega arith)
      (omega arith)

iterate-ne-none_example : iterate inserter (1 ∷ 2 ∷ 3 ∷ []) (100, []) ≢ none
iterate-ne-none_example = iterate-ne-none inserter (1 ∷ 2 ∷ 3 ∷ []) (100, [])

-- A checksum that adds up the bytes.
abbrev pub add_up : ℕ → Bytes → ℕ
add_up c [] = c
add_up c (x ∷ xs) = add_up ((c + x) % 2 ^ 32) xs

pub add_up-append : (c : ℕ) (a b : Bytes) → add_up c (a ++ b) ≡ add_up (add_up c a) b
add_up-append c [] b = refl
add_up-append c (x ∷ a) b = add_up-append ((c + x) % 2 ^ 32) a b

pub add_up-IsU32 : (c : ℕ) (a : Bytes) → c < 2 ^ 32 → add_up c a < 2 ^ 32
add_up-IsU32 c [] h = h
add_up-IsU32 c (x ∷ a) h = add_up-IsU32 ((c + x) % 2 ^ 32) a (omega arith)

abbrev pub sum_crc : Crc
sum_crc = record { extend = add_up; extend-append = add_up-append; extend-IsU32 = add_up-IsU32 }

-- A file in memory, and one that ends at once.
abbrev memory_file : WritableFile Bytes
memory_file = record { append = λ f xs. (ok, f ++ xs); flush = λ f. (ok, f) }

abbrev empty_file : SequentialFile Bytes
empty_file = record { read = λ f n. (ok, [], f); skip = λ f n. (ok, f) }

abbrev at_start : Reader Bytes
at_start = record {
  file = [];
  has_reporter = true;
  checksums = true;
  buffer = [];
  at_eof = false;
  last_record_offset = 0;
  end_of_buffer_offset = 0;
  initial_offset = 0;
  resyncing = false;
  reports = [];
}

read_physical_record-record_header_example :
    read_physical_record sum_crc empty_file
      (record at_start {
        buffer = record_header sum_crc 1 (4 ∷ 5 ∷ []) ++ ((4 ∷ 5 ∷ []) ++ (6 ∷ []));
      })
      []
    ≡ some (1, 4 ∷ 5 ∷ [], record at_start { buffer = 6 ∷ [] })
read_physical_record-record_header_example =
    read_physical_record-record_header sum_crc empty_file at_start [] 1 (4 ∷ 5 ∷ []) (6 ∷ [])
      (omega arith) (omega arith) (omega arith) refl

abbrev near_end : Writer Bytes
near_end = record { dest = []; block_offset = 32760 }

add_record_total_example :
    (s : Status) × (w' : Writer Bytes) × (add_record sum_crc memory_file near_end (4 ∷ 5 ∷ [])
      ≡ some (s, w'))
    × (w'.block_offset ≤ 32768)
add_record_total_example = add_record_total sum_crc memory_file near_end (4 ∷ 5 ∷ []) (omega arith)

read_physical_record-ne-none_example : read_physical_record sum_crc empty_file at_start [] ≢ none
read_physical_record-ne-none_example = read_physical_record-ne-none sum_crc empty_file at_start []
