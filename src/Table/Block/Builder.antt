-- ===== src/Table/Block/Builder.antt =====
-- table/block_builder.cc: `BlockBuilder`. The options are the parameter `block_restart_interval`.
use rally_db.Prelude.{
  ℕ, ◌+◌, ◌-◌, ◌*◌, ◌%◌, ◌^◌, List, [], ◌∷◌, ◌++◌, Bool, true, false, not, ltb, if◌then◌else◌,
  length, take, drop,
}
use rally_db.Util.Coding.{Bytes, put_fixed32, put_varint32}
use rally_db.Util.Comparator.{common_prefix}

pub record BlockBuilder : Type 0 where
  pub buffer : Bytes
  pub restarts : List ℕ
  pub counter : ℕ
  pub finished : Bool
  pub last_key : Bytes

unfoldable pub new_block_builder : BlockBuilder
new_block_builder = record {
  buffer = [];
  restarts = 0 ∷ [];
  counter = 0;
  finished = false;
  last_key = [];
}

unfoldable pub reset : BlockBuilder → BlockBuilder
reset b = record b { buffer = []; restarts = 0 ∷ []; counter = 0; finished = false; last_key = [] }

unfoldable pub current_size_estimate : BlockBuilder → ℕ
current_size_estimate b = length b.buffer + length b.restarts * 4 + 4

-- The loop over `restarts_`; a position is narrowed to the `uint32_t` of an element.
unfoldable pub put_restarts : Bytes → List ℕ → Bytes
put_restarts dst [] = dst
put_restarts dst (r ∷ rs) = put_restarts (put_fixed32 dst r) rs

unfoldable pub finish : BlockBuilder → BlockBuilder
finish b = record b {
  buffer = put_fixed32 (put_restarts b.buffer b.restarts) (length b.restarts % 2 ^ 32);
  finished = true;
}

-- "<shared><non_shared><value_size>", the rest of the key and the value.
unfoldable pub put_entry : Bytes → ℕ → (key val : Bytes) → Bytes
put_entry dst shared key val =
    let header =
      put_varint32
        (put_varint32 (put_varint32 dst (shared % 2 ^ 32)) ((length key - shared) % 2 ^ 32))
        (length val % 2 ^ 32) in
    header ++ drop shared key ++ val

-- The number of bytes that `Add` shares, for the interval of restarts.
unfoldable pub shared_length : ℕ → BlockBuilder → Bytes → ℕ
shared_length interval b key = if ltb b.counter interval then common_prefix b.last_key key else 0

unfoldable pub add : ℕ → BlockBuilder → (key val : Bytes) → BlockBuilder
add interval b key val =
    let shared = shared_length interval b key in
    let restart = not (ltb b.counter interval) in
    record b {
      buffer = put_entry b.buffer shared key val;
      restarts = if restart then b.restarts ++ ((length b.buffer % 2 ^ 32) ∷ []) else b.restarts;
      counter = (if restart then 0 else b.counter) + 1;
      last_key = take shared b.last_key ++ drop shared key;
    }
