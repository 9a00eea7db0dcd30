-- ===== src/Tests/Table.antt =====
-- Runs of table/: filter blocks and blocks.
use rally_db.Prelude.{
  false, drop, take, ℕ, get_or, ◌%◌, ◌^◌, ◌+◌, ◌<◌, [], ◌∷◌, ◌++◌, ◌≡◌, refl, true, some, arith,
  length,
}
use rally_db.Util.Status.{ok}
use rally_db.Util.Coding.{
  IsU32, Bytes, put_fixed32, encode_fixed32, decode_fixed32, put_varint32, encode_varint32,
}
use rally_db.Util.Comparator.{common_prefix, bytewise_comparator, compare}
use rally_db.Table.FilterBlock.Builder.{FilterBlockBuilder, new_builder, add_key, generate_filter}
use rally_db.Table.FilterBlock.Content.{Waits, flat, starts, add_key-Waits}
use rally_db.Table.FilterBlock.Groups.{IsFilterPolicy}
use rally_db.Table.FilterBlock.Generate.{generate_filter_lem}
use rally_db.Util.Bloom.{bloom_policy}
use rally_db.Util.Bloom.Contract.{bloom_policy-IsFilterPolicy}
use rally_db.Table.Block.Builder.{
  BlockBuilder, new_block_builder, add, finish, put_restarts, put_entry, shared_length,
}
use rally_db.Table.Block.Iter.{
  Iter, decode_entry, check_lengths, new_block, num_restarts, new_iter, parse_next_key,
  next_entry_offset, get_restart_point, seek_to_restart_point, advance_restart,
}
use rally_db.Table.Block.Seek.{restart_key, binary_search, found_at, seek_to_first, next}
use rally_db.Table.Block.Entry.{slow_path, decode_entry-slow_path, decode_entry-put_entry}
use rally_db.Table.Block.Scan.{parse_next_key-add}
use rally_db.Table.Block.Search.{IsLast, binary_search-IsLast}

abbrev one_key : FilterBlockBuilder
one_key = add_key new_builder (1 ∷ 2 ∷ [])

abbrev two_keys : FilterBlockBuilder
two_keys = add_key one_key (3 ∷ [])

no_key_Waits : Waits new_builder []
unfolding Waits flat starts new_builder
no_key_Waits = (refl, refl)

one_key-Waits : Waits one_key ((1 ∷ 2 ∷ []) ∷ [])
one_key-Waits = add_key-Waits new_builder [] (1 ∷ 2 ∷ []) no_key_Waits

two_keys-Waits : Waits two_keys ((1 ∷ 2 ∷ []) ∷ (3 ∷ []) ∷ [])
two_keys-Waits = add_key-Waits one_key ((1 ∷ 2 ∷ []) ∷ []) (3 ∷ []) one_key-Waits

-- Filters of at most two keys, with ten bits a key.
abbrev bloom_10-IsFilterPolicy : IsFilterPolicy (bloom_policy 10)
bloom_10-IsFilterPolicy = bloom_policy-IsFilterPolicy 10 2 (omega arith)

generate_filter_lem_example :
    (length (generate_filter (bloom_policy 10) two_keys).filter_units
      ≡ length two_keys.filter_units)
    × ((i : ℕ)
        → i < length two_keys.filter_units
        → get_or (generate_filter (bloom_policy 10) two_keys).filter_units i []
          ≡ get_or two_keys.filter_units i []
            ++ bloom_10-IsFilterPolicy.filter i ((1 ∷ 2 ∷ []) ∷ (3 ∷ []) ∷ []))
    × ((generate_filter (bloom_policy 10) two_keys).filter_offsets
        ≡ two_keys.filter_offsets ++ (length (get_or two_keys.filter_units 0 []) % 2 ^ 32 ∷ []))
    × Waits (generate_filter (bloom_policy 10) two_keys) []
generate_filter_lem_example =
    generate_filter_lem (bloom_policy 10) bloom_10-IsFilterPolicy two_keys (1 ∷ 2 ∷ [])
      ((3 ∷ []) ∷ []) two_keys-Waits

-- Three entries, with a restart at every second one.
abbrev three : BlockBuilder
three =
    add 2 (add 2 (add 2 new_block_builder (5 ∷ 1 ∷ []) (9 ∷ [])) (5 ∷ 2 ∷ []) []) (6 ∷ [])
      (8 ∷ 8 ∷ [])

abbrev three_bytes : Bytes
three_bytes =
    0 ∷ 2 ∷ 1 ∷ 5 ∷ 1 ∷ 9 ∷ 1 ∷ 1 ∷ 0 ∷ 2 ∷ 0 ∷ 1 ∷ 2 ∷ 6 ∷ 8 ∷ 8 ∷ 0 ∷ 0 ∷ 0 ∷ 0 ∷ 10 ∷ 0 ∷ 0 ∷ 0
    ∷ 2 ∷ 0 ∷ 0 ∷ 0 ∷ []

three_finished : (finish three).buffer ≡ three_bytes
unfolding finish put_restarts put_fixed32 encode_fixed32 add put_entry shared_length
    new_block_builder common_prefix put_varint32 encode_varint32
three_finished = refl

three_restarts : (new_block three_bytes).restart_offset ≡ 16
unfolding new_block num_restarts decode_fixed32
three_restarts = refl

abbrev three_iter : Iter
three_iter = new_iter bytewise_comparator three_bytes 16 2

second_key : (next (seek_to_first three_iter)).key ≡ 5 ∷ 2 ∷ []
unfolding next seek_to_first new_iter parse_next_key next_entry_offset get_restart_point
    seek_to_restart_point advance_restart decode_entry check_lengths decode_fixed32
second_key = refl

decode_entry-slow_path_example : decode_entry (1 ∷ 1 ∷ 0 ∷ 2 ∷ []) ≡ slow_path (1 ∷ 1 ∷ 0 ∷ 2 ∷ [])
decode_entry-slow_path_example = decode_entry-slow_path (1 ∷ 1 ∷ 0 ∷ 2 ∷ []) (omega arith)

decode_entry-put_entry_example :
    decode_entry (put_entry [] 1 (5 ∷ 2 ∷ []) (9 ∷ []) ++ (4 ∷ []))
    ≡ some (record { shared = 1; non_shared = 1; value_length = 1; tail = 2 ∷ 9 ∷ 4 ∷ [] })
decode_entry-put_entry_example =
    decode_entry-put_entry 1 (5 ∷ 2 ∷ []) (9 ∷ []) (4 ∷ []) (omega arith) (omega arith)

search_six : binary_search 1 three_iter (6 ∷ 1 ∷ []) 0 1 ≡ found_at 1
unfolding binary_search restart_key new_iter get_restart_point decode_entry check_lengths
    bytewise_comparator compare decode_fixed32
search_six = refl

binary_search-IsLast_example : IsLast three_iter (6 ∷ 1 ∷ []) 0 1 1
binary_search-IsLast_example =
    binary_search-IsLast three_iter (6 ∷ 1 ∷ []) 0 1 1 (omega arith) search_six

-- The builder and an iterator behind the first of the three entries.
abbrev after_one : BlockBuilder
after_one = record {
  buffer = 0 ∷ 2 ∷ 1 ∷ 5 ∷ 1 ∷ 9 ∷ [];
  restarts = 0 ∷ [];
  counter = 1;
  finished = false;
  last_key = 5 ∷ 1 ∷ [];
}

abbrev at_one : Iter
at_one = record {
  comparator = bytewise_comparator;
  contents = three_bytes;
  restarts = 16;
  restarts_number = 2;
  current = 0;
  restart_index = 0;
  key = 5 ∷ 1 ∷ [];
  value_offset = 5;
  value_size = 1;
  status = ok;
}

abbrev six_left : Bytes
six_left = 0 ∷ 1 ∷ 2 ∷ 6 ∷ 8 ∷ 8 ∷ []

second_entry :
    drop (next_entry_offset at_one) (take 16 three_bytes)
    ≡ put_entry [] (shared_length 2 after_one (5 ∷ 2 ∷ [])) (5 ∷ 2 ∷ []) [] ++ six_left
unfolding next_entry_offset put_entry shared_length common_prefix put_varint32 encode_varint32
second_entry = refl

six_is_next : next_entry_offset at_one < 16
unfolding next_entry_offset
six_is_next = omega arith

six_are_few : IsU32 (2 + 0 + length six_left)
six_are_few = omega arith

parse_next_key-add_example :
    ((parse_next_key at_one).0 ≡ true)
    × ((parse_next_key at_one).1.key ≡ 5 ∷ 2 ∷ [])
    × ((parse_next_key at_one).1.value_size ≡ 0)
    × ((parse_next_key at_one).1.current ≡ next_entry_offset at_one)
    × ((parse_next_key at_one).1.value_offset + 0 + length six_left ≡ 16)
parse_next_key-add_example =
    parse_next_key-add 2 after_one at_one (5 ∷ 2 ∷ []) [] six_left refl second_entry six_is_next
      six_are_few
