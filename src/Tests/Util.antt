-- ===== src/Tests/Util.antt =====
-- Runs of util/: the encodings, the comparator, the checksum's mask and the queues of filters.
use rally_db.Prelude.{
  ℕ, ◌+◌, ◌*◌, ◌%◌, ◌^◌, ◌≤◌, List, [], ◌∷◌, ◌≡◌, refl, ◌≢◌, true, none, some, arith, ltb, All,
  ◌==◌, if◌then◌else◌,
}
use rally_db.Util.Status.{Status, ok}
use rally_db.Util.Coding.{
  Bytes, encode_varint32, get_varint32, get_varint32_ptr, get_varint32_ptr_fallback,
  get_length_prefixed_slice,
}
use rally_db.Util.Comparator.{compare, common_prefix, find_shortest_separator, negative}
use rally_db.Table.FilterBlock.Reader.{FilterBlockReader, is_cold}
use rally_db.Util.MultiQueue.{MultiQueue}
use rally_db.Util.MultiQueue.Cold.{take_cold, find_cold_in, find_cold_from, find_cold_filter}
use rally_db.Util.MultiQueue.Adjust.{Double, adjustment}
use rally_db.Util.MultiQueue.Selection.{
  IsTakeable, unit_sizes, find_cold_filter-IsTakeable, find_cold_filter_exact,
}
use rally_db.Util.MultiQueue.Memory.{loaded, adjustment_memory}

varint_300 : encode_varint32 300 ≡ 172 ∷ 2 ∷ []
unfolding encode_varint32
varint_300 = refl

get_varint32_300 : get_varint32 (172 ∷ 2 ∷ 9 ∷ []) ≡ some (300, 9 ∷ [])
unfolding get_varint32 get_varint32_ptr get_varint32_ptr_fallback
get_varint32_300 = refl

get_varint32_short : get_varint32 (172 ∷ []) ≡ none
unfolding get_varint32 get_varint32_ptr get_varint32_ptr_fallback
get_varint32_short = refl

separator_of_abc : find_shortest_separator (97 ∷ 98 ∷ 99 ∷ []) (97 ∷ 101 ∷ []) ≡ 97 ∷ 99 ∷ []
unfolding find_shortest_separator common_prefix
separator_of_abc = refl

read_two : get_length_prefixed_slice (2 ∷ 7 ∷ 8 ∷ 9 ∷ []) ≡ some (7 ∷ 8 ∷ [], 9 ∷ [])
unfolding get_length_prefixed_slice get_varint32 get_varint32_ptr
read_two = refl

abbrev one : Bytes
one = 1 ∷ []

abbrev one_two : Bytes
one_two = 1 ∷ 2 ∷ []

shorter_first : compare (1 ∷ []) (1 ∷ 2 ∷ []) ≡ negative
unfolding compare
shorter_first = refl

-- A reader with units of 10 bytes each, for a table of six.
abbrev reader_of : (access_time sequence : ℕ) → List Bytes → FilterBlockReader
reader_of access_time sequence units = record {
  offset = [];
  disk_offset = 0;
  disk_size = 10;
  init_units_number = 2;
  all_units_number = 6;
  base_lg = 11;
  num = 0;
  reload_units_number = 2;
  access_time = access_time;
  sequence = sequence;
  file = 0;
  filter_units = units;
  init_done = true;
}

-- Handle 0 is hot and has no unit; handle 1 is cold and has one.
abbrev two_readers : MultiQueue
two_readers = record {
  queues = (0 ∷ []) ∷ (1 ∷ []) ∷ [] ∷ [] ∷ [] ∷ [] ∷ [] ∷ [];
  readers = λ h. if h == 0 then reader_of 5 20000 [] else reader_of 1 0 ((1 ∷ []) ∷ []);
  handles = [];
  usage = 10;
  adjustment_time = 0;
  scheduled = [];
  next = 2;
}

-- Numbers for the expected reads, with a filter that is never wrong.
abbrev whole_numbers : Double
whole_numbers = record {
  Number = ℕ;
  of_ℕ = λ n. n;
  plus = λ a b. a + b;
  times = λ a b. a * b;
  pow = λ b n. b ^ n;
  less = ltb;
}

abbrev disk : ℕ → ℕ → ℕ → Status × Bytes
disk file offset size = (ok, 3 ∷ [])

chosen : find_cold_filter two_readers 10 20000 ≡ 1 ∷ []
unfolding find_cold_filter find_cold_from find_cold_in take_cold is_cold
chosen = refl

find_cold_filter-IsTakeable_example :
    All (IsTakeable two_readers.readers 20000) (find_cold_filter two_readers 10 20000)
find_cold_filter-IsTakeable_example = find_cold_filter-IsTakeable two_readers 20000 10

some_chosen : find_cold_filter two_readers 10 20000 ≢ []
some_chosen e = cc (chosen, e)

find_cold_filter_exact_example :
    unit_sizes two_readers.readers (find_cold_filter two_readers 10 20000) % 2 ^ 64 ≡ 10
find_cold_filter_exact_example =
    find_cold_filter_exact two_readers 20000 10 (omega arith) some_chosen

adjustment_memory_example :
    loaded (adjustment whole_numbers 0 disk two_readers 0 20000).readers 2
    ≤ loaded two_readers.readers 2
adjustment_memory_example =
    adjustment_memory whole_numbers 0 disk 2 two_readers 0 20000
      ((omega arith, tt), ((omega arith, tt), (tt, (tt, (tt, (tt, (tt, tt))))))) (omega arith)
      (omega arith)
