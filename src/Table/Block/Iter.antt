-- ===== src/Table/Block/Iter.antt =====
-- table/block.cc: `Block` and `Block::Iter`. A pointer into the block is an offset in its contents.
use rally_db.Prelude.{
  ℕ, zero, suc, ◌+◌, ◌-◌, ◌*◌, ◌/◌, ◌%◌, ◌^◌, bit_or, [], ◌++◌, Bool, true, false, ◌&&◌, Option,
  none, some, ltb, leb, ◌==◌, if◌then◌else◌, length, get_or, take, drop,
}
use rally_db.Util.Status.{Status, ok, corruption}
use rally_db.Util.Coding.{Bytes, decode_fixed32, get_varint32_ptr}
use rally_db.Util.Comparator.{Comparator}

pub record Block : Type 0 where
  pub contents : Bytes
  pub block_size : ℕ
  pub restart_offset : ℕ

-- `NumRestarts`
unfoldable pub num_restarts : Bytes → ℕ
num_restarts contents = decode_fixed32 (drop (length contents - 4) contents)

-- The constructor; a `block_size` of 0 is the mark of an error.
unfoldable pub new_block : Bytes → Block
new_block contents =
    let broken : Block = record { contents = contents; block_size = 0; restart_offset = 0 } in
    let restart_offset = length contents - (1 + num_restarts contents) * 4 in
    if ltb (length contents) 4
    then broken
    else if ltb ((length contents - 4) / 4) (num_restarts contents)
    then broken
    else record {
      contents = contents;
      block_size = length contents;
      restart_offset = restart_offset;
    }

-- `DecodeEntry` on the bytes from `p` to `limit`: `shared`, `non_shared`, `value_length`, and the
-- bytes from the key on.
pub record Header : Type 0 where
  pub shared : ℕ
  pub non_shared : ℕ
  pub value_length : ℕ
  pub tail : Bytes

unfoldable pub decode_lengths : Bytes → Option Header
decode_lengths p = elim (get_varint32_ptr p) [
  | none ↦ none
  | some (shared, p1) ↦ elim (get_varint32_ptr p1) [
    | none ↦ none
    | some (non_shared, p2) ↦ elim (get_varint32_ptr p2) [
      | none ↦ none
      | some (value_length, p3) ↦ some (record {
        shared = shared;
        non_shared = non_shared;
        value_length = value_length;
        tail = p3;
      })
    ]
  ]
]

-- The last test: the sum of the lengths is a `uint32_t`.
unfoldable pub check_lengths : Header → Option Header
check_lengths h =
    if ltb (length h.tail % 2 ^ 32) ((h.non_shared + h.value_length) % 2 ^ 32) then none else some h

unfoldable pub decode_entry : Bytes → Option Header
decode_entry p =
    let fast : Header = record {
      shared = get_or p 0 0;
      non_shared = get_or p 1 0;
      value_length = get_or p 2 0;
      tail = drop 3 p;
    } in
    if ltb (length p) 3
    then none
    else if ltb (bit_or (bit_or (get_or p 0 0) (get_or p 1 0)) (get_or p 2 0)) 128
    then check_lengths fast
    else elim (decode_lengths p) [ none ↦ none | some h ↦ check_lengths h ]

-- `value_` is its offset and its size; the bytes are in `contents`.
pub record Iter : Type 0 where
  pub comparator : Comparator
  pub contents : Bytes
  pub restarts : ℕ
  pub restarts_number : ℕ
  pub current : ℕ
  pub restart_index : ℕ
  pub key : Bytes
  pub value_offset : ℕ
  pub value_size : ℕ
  pub status : Status

unfoldable pub new_iter : Comparator → Bytes → ℕ → ℕ → Iter
new_iter comparator contents restarts restarts_number = record {
  comparator = comparator;
  contents = contents;
  restarts = restarts;
  restarts_number = restarts_number;
  current = restarts;
  restart_index = restarts_number;
  key = [];
  value_offset = 0;
  value_size = 0;
  status = ok;
}

-- What `Block::NewIterator` returns.
pub data NewIterator : Type 0 where
  error_iterator : Status → NewIterator
  empty_iterator : NewIterator
  iter : Iter → NewIterator

unfoldable pub new_iterator : Block → Comparator → NewIterator
new_iterator b comparator =
    if ltb b.block_size 4
    then error_iterator (corruption "bad block contents")
    else if num_restarts b.contents == 0
    then empty_iterator
    else iter (new_iter comparator b.contents b.restart_offset (num_restarts b.contents))

abbrev pub is_valid : Iter → Bool
is_valid it = ltb it.current it.restarts

abbrev pub iter_value : Iter → Bytes
iter_value it = take it.value_size (drop it.value_offset it.contents)

unfoldable pub next_entry_offset : Iter → ℕ
next_entry_offset it = (it.value_offset + it.value_size) % 2 ^ 32

unfoldable pub get_restart_point : Iter → ℕ → ℕ
get_restart_point it index = decode_fixed32 (drop (it.restarts + index * 4) it.contents)

unfoldable pub seek_to_restart_point : Iter → ℕ → Iter
seek_to_restart_point it index = record it {
  key = [];
  restart_index = index;
  value_offset = get_restart_point it index;
  value_size = 0;
}

unfoldable pub corruption_error : Iter → Iter
corruption_error it = record it {
  current = it.restarts;
  restart_index = it.restarts_number;
  status = corruption "bad entry in block";
  key = [];
  value_offset = 0;
  value_size = 0;
}

-- The loop over `restart_index_` of `ParseNextKey`, with the number of restarts for fuel.
unfoldable pub advance_restart : ℕ → Iter → Iter
advance_restart zero it = it
advance_restart (suc fuel) it =
    let rest = advance_restart fuel (record it { restart_index = it.restart_index + 1 }) in
    if ltb (it.restart_index + 1) it.restarts_number
      && ltb (get_restart_point it (it.restart_index + 1)) it.current
    then rest
    else it

-- `ParseNextKey`: whether there is an entry, and the iterator.
unfoldable pub parse_next_key : Iter → Bool × Iter
parse_next_key it =
    let current = next_entry_offset it in
    let at = record it { current = current } in
    let bytes = drop current (take it.restarts it.contents) in
    if leb it.restarts current
    then (false, record it { current = it.restarts; restart_index = it.restarts_number })
    else elim (decode_entry bytes) [
      | none ↦ (false, corruption_error at)
      | some h ↦ if ltb (length it.key) h.shared then (false, corruption_error at) else (
        true,
        advance_restart it.restarts_number (record at {
          key = take h.shared it.key ++ take h.non_shared h.tail;
          value_offset = it.restarts - length h.tail + h.non_shared;
          value_size = h.value_length;
        }),
      )
    ]
