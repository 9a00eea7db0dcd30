-- ===== src/Tests/Files.antt =====
-- Runs of what stands in files: tables, their filters, and version edits.
use rally_db.Prelude.{
  ℕ, zero, suc, ◌+◌, ◌*◌, ◌^◌, ◌<◌, ◌≤◌, List, [], ◌∷◌, ◌++◌, ◌≡◌, ◌≢◌, refl, true, false, none,
  some, inl, inr, arith, length, drop, take, replicate, get_or, All, All-append,
}
use rally_db.Util.Status.{ok, io_error}
use rally_db.Util.Coding.{Bytes}
use rally_db.Util.Hash.{hash, hash_loop, mix}
use rally_db.Util.Comparator.{bytewise_comparator}
use rally_db.Util.Bloom.{
  bloom_policy, bloom_filter, bloom_may_match, add_keys, add_probes, set_bit, rotate, bloom_hash,
  filter_bytes, probes_number,
}
use rally_db.Util.Bloom.Match.{bloom_may_match-bloom_filter}
use rally_db.Table.Format.{
  Footer, no_compression, snappy, Compressors, read_block, encode_footer, decode_footer,
  decode_handle, magic_of,
}
use rally_db.Table.Format.Footers.{decode_footer-encode_footer, decode_footer_accepts}
use rally_db.Table.Block.Builder.{BlockBuilder, finish}
use rally_db.Table.Builder.{
  Rep, Options, new_table_builder, write_raw_filters, append_filters, append_block, write_block,
}
use rally_db.Table.Builder.Blocks.{intact, read_at, read_block-write_block}
use rally_db.Table.Builder.Filters.{reads}
use rally_db.Table.Builder.Lookup.{built, unit_bytes, init_load_filter-write_raw_filters}
use rally_db.Table.FilterBlock.Builder.{
  FilterBlockBuilder, new_builder, add_key, start_block, start_loop, generate_filter, create_units,
  slices, return_filters, finish as finish_filters,
}
use rally_db.Table.FilterBlock.Reader.{
  FilterBlockReader, new_reader, init_load_filter, key_may_match,
}
use rally_db.Table.FilterBlock.Run.{
  run_blocks, add_keys as add_block_keys, IsRising, InBlock, keys_number,
}
use rally_db.Table.FilterBlock.Contents.{Opened, new_reader-finish}
use rally_db.Db.Log.Writer.{WritableFile}
use rally_db.Db.VersionEdit.{FileMetaData, VersionEdit}
use rally_db.Db.VersionEdit.Encode.{encode_to}
use rally_db.Db.VersionEdit.Decode.{decode_from}
use rally_db.Db.VersionEdit.RoundTrip.{IsName, IsNumber, IsOrdered, IsEdit, decode_from-encode_to}
use rally_db.Db.VersionEdit.Total.{decode_from-ne-none}
use rally_db.Db.VersionSet.{
  some_file_overlaps_range, find_file, ends_before, any_overlaps, after_file, before_file,
}
use rally_db.Db.VersionSet.Search.{first_not, IsSplit, find_file-first_not}
use rally_db.Db.VersionSet.Overlap.{IsLevel, small, large, some_file_overlaps_range_same}
use rally_db.Db.Format.{extract_user_key, extract_tag, internal_compare}
use rally_db.Util.Coding.{
  IsByte, get_varint64, get_varint64_ptr, get_varint_loop, decode_fixed32, decode_fixed64,
}
use rally_db.Util.Comparator.{compare, memcmp, null, negative}
use rally_db.Util.Logging.{
  consume_decimal_number, number_to_string, append_number_to, digits, is_digit, consume_loop,
  overflows,
}
use rally_db.Util.Logging.RoundTrip.{IsEnd, consume_decimal_number-number_to_string}
use rally_db.Db.FileName.{
  log_file, table_file, temp_file, descriptor_file, parse_file_name, parse_numbered, type_of_suffix,
  log_file_name, table_file_name, sst_table_file_name, temp_file_name, descriptor_file_name,
}
use rally_db.Db.FileName.Parsed.{base, parse_file_name-make_file_name}
use rally_db.Prelude.Bytes.{same}
use rally_db.Tests.Db.{sum_crc}

-- A compressor that never succeeds.
abbrev refusing : Compressors
refusing = record {
  compress = λ t raw. none;
  uncompressed_length = λ t c. none;
  uncompress = λ t c. none;
  length-compress = λ t raw c full e. cc;
  uncompress-compress = λ t raw c e. cc;
}

abbrev key_a : Bytes
key_a = 97 ∷ 98 ∷ []

-- Two blocks, 4 KB apart.
abbrev two_blocks : List (ℕ × List Bytes)
two_blocks = (0, (key_a ∷ [])) ∷ (4096, ((99 ∷ []) ∷ [])) ∷ []

abbrev options : Options
options = record {
  comparator = bytewise_comparator;
  filter_policy = some ([], bloom_policy 10);
  block_size = 4096;
  block_restart_interval = 16;
  compression = snappy;
}

abbrev builder : Rep Bytes
builder = new_table_builder options []

-- An object's memory before its constructor runs.
abbrev memory : FilterBlockReader
memory = record {
  offset = [];
  disk_offset = 7;
  disk_size = 7;
  init_units_number = 7;
  all_units_number = 7;
  base_lg = 7;
  num = 7;
  reload_units_number = 7;
  access_time = 7;
  sequence = 7;
  file = 7;
  filter_units = [];
  init_done = true;
}

blocks_rise : IsRising 0 two_blocks
unfolding IsRising
blocks_rise = (omega arith, (omega arith, tt))

key_is_there : InBlock 0 key_a two_blocks
unfolding InBlock
key_is_there = inl (refl, inl refl)

keys_are_few : keys_number two_blocks * 10 < 2 ^ 63
unfolding keys_number
keys_are_few = omega arith

unit_size_is : unit_bytes 10 two_blocks ≡ 18
unfolding return_filters run_blocks new_builder add_block_keys add_key start_block start_loop
    generate_filter create_units slices bloom_policy bloom_filter add_keys add_probes set_bit rotate
    bloom_hash hash hash_loop mix filter_bytes probes_number
unit_size_is = refl

starts_empty : builder.offset ≡ length builder.file
unfolding new_table_builder
starts_empty = refl

offset_zero : builder.offset ≡ 0
unfolding new_table_builder
offset_zero = refl

init_load_filter-write_raw_filters_example :
    let written =
      write_raw_filters sum_crc refusing intact builder
        (built 10 two_blocks).filter_units
        no_compression in
    let reader =
      new_reader memory (finish_filters (built 10 two_blocks) written.1.offset written.1.size) 3 in
    let loaded =
      init_load_filter (reads sum_crc refusing (written.0.file ++ (1 ∷ 2 ∷ [])) true) reader in
    (loaded.0 ≡ ok) × (key_may_match (bloom_policy 10) loaded.1 0 key_a ≡ true)
init_load_filter-write_raw_filters_example =
    init_load_filter-write_raw_filters sum_crc refusing 10 two_blocks builder (1 ∷ 2 ∷ []) true
      memory 3 0 key_a keys_are_few blocks_rise key_is_there starts_empty
      (omega (arith, unit_size_is)) (omega (arith, unit_size_is, offset_zero))

bloom_may_match-bloom_filter_example :
    bloom_may_match key_a (bloom_filter 10 1 (key_a ∷ (99 ∷ []) ∷ [])) 1 ≡ true
bloom_may_match-bloom_filter_example =
    bloom_may_match-bloom_filter 10 1 key_a (key_a ∷ (99 ∷ []) ∷ []) (omega arith) (inl refl)

-- The filter of two keys.
filter_of_two : length (bloom_filter 10 1 (key_a ∷ (99 ∷ []) ∷ [])) ≡ 9
unfolding bloom_filter add_keys add_probes set_bit rotate bloom_hash hash hash_loop mix filter_bytes
    probes_number
filter_of_two = refl

-- A builder with two filters, of which the first takes 9 bytes of each unit and the second 4.
abbrev two_filters : FilterBlockBuilder
two_filters = record {
  keys = [];
  start = [];
  result = [];
  filter_offsets = 0 ∷ 9 ∷ [];
  filter_units = (1 ∷ 2 ∷ 3 ∷ 4 ∷ 5 ∷ 6 ∷ 7 ∷ 8 ∷ 9 ∷ 1 ∷ 2 ∷ 3 ∷ 4 ∷ []) ∷ [];
}

new_reader-finish_example :
    Opened
      (new_reader memory (finish_filters two_filters 500 13) 3)
      (finish_filters two_filters 500 13)
      2
      500
      13
    × ((i : ℕ)
        → i ≤ 2
        → decode_fixed32
            (drop (i * 4) (new_reader memory (finish_filters two_filters 500 13) 3).offset)
          ≡ get_or (0 ∷ 9 ∷ 13 ∷ []) i 0)
new_reader-finish_example =
    new_reader-finish memory two_filters 500 13 3 refl (omega arith, (omega arith, tt))
      (omega arith) (omega arith)

-- A block of some bytes.
abbrev block : BlockBuilder
block = record {
  buffer = 1 ∷ 2 ∷ 3 ∷ [];
  restarts = 0 ∷ [];
  counter = 1;
  finished = false;
  last_key = 4 ∷ [];
}

read_block-write_block_example :
    read_block sum_crc refusing
      (read_at ((write_block sum_crc refusing intact builder block).0.file ++ (9 ∷ [])))
      true
      (write_block sum_crc refusing intact builder block).1
    ≡ (ok, (finish block).buffer)
read_block-write_block_example =
    read_block-write_block sum_crc refusing builder block (9 ∷ []) true starts_empty

abbrev footer : Footer
footer = record {
  metaindex_handle = record { offset = 300; size = 20 };
  index_handle = record { offset = 70000; size = 1 };
}

footer_read : decode_footer (encode_footer [] footer ++ (5 ∷ [])) ≡ inr (footer, 5 ∷ [])
footer_read =
    decode_footer-encode_footer footer (5 ∷ [])
      ((omega arith, omega arith), (omega arith, omega arith))

decode_footer-encode_footer_example :
    decode_footer (encode_footer [] footer ++ (5 ∷ [])) ≡ inr (footer, 5 ∷ [])
decode_footer-encode_footer_example =
    decode_footer-encode_footer footer (5 ∷ [])
      ((omega arith, omega arith), (omega arith, omega arith))

-- A footer with handles of one byte each number, and what stands behind it.
abbrev footer_bytes : Bytes
footer_bytes =
    5
    ∷ 6
    ∷ 7
    ∷ 8
    ∷ (replicate 36 0 ++ (0x57 ∷ 0xfb ∷ 0x80 ∷ 0x8b ∷ 0x24 ∷ 0x75 ∷ 0x47 ∷ 0xdb ∷ 9 ∷ []))

abbrev small_footer : Footer
small_footer = record {
  metaindex_handle = record { offset = 5; size = 6 };
  index_handle = record { offset = 7; size = 8 };
}

footer_bytes_read : decode_footer footer_bytes ≡ inr (small_footer, 9 ∷ [])
unfolding decode_footer decode_handle magic_of get_varint64 get_varint64_ptr get_varint_loop
    decode_fixed32
footer_bytes_read = refl

zeros_are : (n : ℕ) → All IsByte (replicate n 0)
zeros_are zero = tt
zeros_are (suc n) = (omega arith, zeros_are n)

footer_bytes_are : All IsByte footer_bytes
footer_bytes_are = (
  omega arith,
  (
    omega arith,
    (
      omega arith,
      (
        omega arith,
        All-append IsByte (replicate 36 0)
            (0x57 ∷ 0xfb ∷ 0x80 ∷ 0x8b ∷ 0x24 ∷ 0x75 ∷ 0x47 ∷ 0xdb ∷ 9 ∷ []) (zeros_are 36)
            (
              omega arith,
              (
                omega arith,
                (
                  omega arith,
                  (
                    omega arith,
                    (omega arith, (omega arith, (omega arith, (omega arith, (omega arith, tt))))),
                  ),
                ),
              ),
            ),
      ),
    ),
  ),
)

decode_footer_accepts_example :
    (48 ≤ 49)
    × (take 8 (drop 40 footer_bytes) ≡ 0x57 ∷ 0xfb ∷ 0x80 ∷ 0x8b ∷ 0x24 ∷ 0x75 ∷ 0x47 ∷ 0xdb ∷ [])
    × (9 ∷ [] ≡ drop 48 footer_bytes)
    × (r : Bytes) × (r' : Bytes) × (decode_handle footer_bytes
        ≡ inr (small_footer.metaindex_handle, r))
    × (decode_handle r ≡ inr (small_footer.index_handle, r'))
decode_footer_accepts_example =
    decode_footer_accepts footer_bytes small_footer (9 ∷ []) footer_bytes_are footer_bytes_read

-- A file whose first write fails.
abbrev failing_once : WritableFile ℕ
failing_once = record {
  append = λ f x. elim f [ zero ↦ (io_error "disk full", 1) | suc n ↦ (ok, n + 2) ];
  flush = λ f. (ok, f);
}

-- `WriteRawFilters` forgets that the first unit was not written.
lost_error :
    (append_filters sum_crc refusing failing_once
      (new_table_builder options 0)
      ((1 ∷ []) ∷ (2 ∷ []) ∷ [])
      no_compression).status
    ≡ ok
unfolding append_filters append_block new_table_builder
lost_error = refl

abbrev added_file : FileMetaData
added_file = record { number = 12; file_size = 4096; smallest = 97 ∷ 1 ∷ []; largest = 99 ∷ 1 ∷ [] }

abbrev edit : VersionEdit
edit = record {
  comparator = 98 ∷ [];
  log_number = 9;
  prev_log_number = 0;
  next_file_number = 300;
  last_sequence = 2 ^ 40;
  has_comparator = true;
  has_log_number = true;
  has_prev_log_number = false;
  has_next_file_number = true;
  has_last_sequence = true;
  compact_pointers = (1, 97 ∷ []) ∷ [];
  deleted_files = (1, 7) ∷ (2, 3) ∷ [];
  new_files = (2, added_file) ∷ [];
}

edit-IsEdit : IsEdit edit
unfolding IsName IsNumber IsOrdered
edit-IsEdit = record {
  name_fits = omega arith;
  log_fits = omega arith;
  prev_log_fits = refl;
  next_file_fits = omega arith;
  last_sequence_fits = omega arith;
  pointers_fit = ((omega arith, (omega arith, omega arith)), tt);
  deleted_fit = ((omega arith, omega arith), ((omega arith, omega arith), tt));
  new_files_fit = (
    (
      omega arith,
      (omega arith, omega arith, (omega arith, omega arith), (omega arith, omega arith)),
    ),
    tt,
  );
  deleted_ordered = ((refl, tt), (tt, tt));
}

decode_from-encode_to_example : decode_from (encode_to [] edit) ≡ some (ok, edit)
decode_from-encode_to_example = decode_from-encode_to edit edit-IsEdit

decode_from-ne-none_example : decode_from (7 ∷ 9 ∷ []) ≢ none
decode_from-ne-none_example = decode_from-ne-none (7 ∷ 9 ∷ [])

-- Two files of a level, with the keys "a" to "c" and "e" to "g".
abbrev tag_one : Bytes
tag_one = 1 ∷ 5 ∷ 0 ∷ 0 ∷ 0 ∷ 0 ∷ 0 ∷ 0 ∷ []

abbrev file_a_c : FileMetaData
file_a_c = record { number = 1; file_size = 100; smallest = 97 ∷ tag_one; largest = 99 ∷ tag_one }

abbrev file_e_g : FileMetaData
file_e_g = record { number = 2; file_size = 100; smallest = 101 ∷ tag_one; largest = 103 ∷ tag_one }

abbrev level : List FileMetaData
level = file_a_c ∷ file_e_g ∷ []

in_order :
    (compare (small file_a_c) (large file_a_c) ≡ negative)
    × (compare (small file_e_g) (large file_e_g) ≡ negative)
    × (compare (large file_a_c) (small file_e_g) ≡ negative)
unfolding compare extract_user_key
in_order = (refl, refl, refl)

tags_are : (extract_tag (file_a_c.largest) ≡ 1281) × (extract_tag (file_e_g.largest) ≡ 1281)
unfolding extract_tag decode_fixed64
tags_are = (refl, refl)

level-IsLevel : IsLevel level
unfolding IsLevel
level-IsLevel = (
  (rw in_order.0 (λ e. cc), omega (arith, tags_are.0)),
  (rw in_order.2 (λ e. cc), tt),
  ((rw in_order.1 (λ e. cc), omega (arith, tags_are.1)), tt, tt),
)

-- A file that begins with the user key that the first one ends with, at an older entry.
abbrev file_c_g : FileMetaData
file_c_g = record {
  number = 3;
  file_size = 100;
  smallest = 99 ∷ 1 ∷ 4 ∷ 0 ∷ 0 ∷ 0 ∷ 0 ∷ 0 ∷ 0 ∷ [];
  largest = 103 ∷ tag_one;
}

abbrev touching : List FileMetaData
touching = file_a_c ∷ file_c_g ∷ []

touching_order :
    (compare (small file_c_g) (large file_c_g) ≡ negative)
    × (compare (large file_a_c) (small file_c_g) ≡ null)
    × (extract_tag (file_c_g.largest) ≡ 1281)
unfolding compare memcmp extract_user_key extract_tag decode_fixed64
touching_order = (refl, refl, refl)

touching-IsLevel : IsLevel touching
unfolding IsLevel
touching-IsLevel = (
  (rw in_order.0 (λ e. cc), omega (arith, tags_are.0)),
  (rw touching_order.1 (λ e. cc), tt),
  ((rw touching_order.0 (λ e. cc), omega (arith, touching_order.2)), tt, tt),
)

some_file_overlaps_range_same_example :
    some_file_overlaps_range bytewise_comparator true touching (some (99 ∷ [])) (some (100 ∷ []))
    ≡ some_file_overlaps_range bytewise_comparator false touching (some (99 ∷ [])) (some (100 ∷ []))
some_file_overlaps_range_same_example =
    some_file_overlaps_range_same touching (some (99 ∷ [])) (some (100 ∷ [])) touching-IsLevel
      (omega arith)

-- The range from "d" to "e" overlaps the second file.
overlaps :
    some_file_overlaps_range bytewise_comparator false level (some (100 ∷ [])) (some (101 ∷ []))
    ≡ true
unfolding some_file_overlaps_range any_overlaps after_file before_file compare extract_user_key
overlaps = refl

first_ends : ends_before bytewise_comparator (100 ∷ tag_one) file_a_c ≡ true
unfolding ends_before internal_compare compare extract_user_key extract_tag decode_fixed64
first_ends = refl

level-IsSplit : IsSplit (ends_before bytewise_comparator (100 ∷ tag_one)) level
unfolding IsSplit
level-IsSplit = (inl first_ends, (inr tt, tt))

find_file-first_not_example :
    find_file bytewise_comparator level (100 ∷ tag_one)
    ≡ first_not (ends_before bytewise_comparator (100 ∷ tag_one)) level
find_file-first_not_example =
    find_file-first_not bytewise_comparator (100 ∷ tag_one) level level-IsSplit (omega arith)

-- ".log" does not go on with a digit.
suffix-IsEnd : IsEnd (46 ∷ 108 ∷ 111 ∷ 103 ∷ [])
unfolding IsEnd is_digit
suffix-IsEnd = refl

consume_decimal_number-number_to_string_example :
    consume_decimal_number (number_to_string 1009 ++ (46 ∷ 108 ∷ 111 ∷ 103 ∷ []))
    ≡ some (1009, 46 ∷ 108 ∷ 111 ∷ 103 ∷ [])
consume_decimal_number-number_to_string_example =
    consume_decimal_number-number_to_string 1009 (46 ∷ 108 ∷ 111 ∷ 103 ∷ []) (omega arith)
      suffix-IsEnd

text_of_number : number_to_string 1009 ≡ 49 ∷ 48 ∷ 48 ∷ 57 ∷ []
unfolding number_to_string append_number_to digits
text_of_number = refl

abbrev dbname : Bytes
dbname = 100 ∷ 98 ∷ []

parse_file_name-make_file_name_example :
    (parse_file_name (base dbname (log_file_name dbname 42)) ≡ some (42, log_file))
    × (parse_file_name (base dbname (table_file_name dbname 42)) ≡ some (42, table_file))
    × (parse_file_name (base dbname (sst_table_file_name dbname 42)) ≡ some (42, table_file))
    × (parse_file_name (base dbname (temp_file_name dbname 42)) ≡ some (42, temp_file))
    × (parse_file_name (base dbname (descriptor_file_name dbname 42)) ≡ some (42, descriptor_file))
parse_file_name-make_file_name_example = parse_file_name-make_file_name dbname 42 (omega arith)

-- "000042.log" is a log file, and "42.old" is none of the database's.
name_parsed :
    (parse_file_name (48 ∷ 48 ∷ 48 ∷ 48 ∷ 52 ∷ 50 ∷ 46 ∷ 108 ∷ 111 ∷ 103 ∷ [])
      ≡ some (42, log_file))
    × (parse_file_name (52 ∷ 50 ∷ 46 ∷ 111 ∷ 108 ∷ 100 ∷ []) ≡ none)
unfolding parse_file_name parse_numbered type_of_suffix same consume_decimal_number consume_loop
    is_digit overflows
name_parsed = (refl, refl)
