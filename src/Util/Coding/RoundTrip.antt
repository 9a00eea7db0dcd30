-- ===== src/Util/Coding/RoundTrip.antt =====
-- Every `Put...` is undone by its `Get...`, in front of any further input.
use rally_db.Prelude.{
  ℕ, ◌≤◌, [], ◌++◌, ◌≡◌, some, arith, length, length-append, take_of_append, drop_of_append,
  append_assoc,
}
use rally_db.Prelude.Order.{lt_wf}
use rally_db.Util.Coding.{
  Bytes, IsU32, IsU64, encode_varint64, varint_length, get_varint32, get_varint64, put_varint32,
  put_varint64, put_length_prefixed_slice, get_length_prefixed_slice,
}
use rally_db.Util.Coding.Varint.{
  varint, encode_varint32-varint, encode_varint64-varint, length_loop-varint, get_varint32-varint,
  get_varint64-varint, length-varint,
}
use native.Mathlib.Nat.{mod-eq_of_lt}

-- A uint32 that `PutVarint32` wrote is read back, and what follows it is left.
pub get_varint32-put_varint32 :
    (v : ℕ) (rest : Bytes) → IsU32 v → get_varint32 (put_varint32 [] v ++ rest) ≡ some (v, rest)
unfolding put_varint32
get_varint32-put_varint32 v rest h = rw (encode_varint32-varint v h) (get_varint32-varint v rest h)

-- A uint64 that `PutVarint64` wrote is read back, and what follows it is left.
pub get_varint64-put_varint64 :
    (v : ℕ) (rest : Bytes) → IsU64 v → get_varint64 (put_varint64 [] v ++ rest) ≡ some (v, rest)
unfolding put_varint64
get_varint64-put_varint64 v rest h = rw (encode_varint64-varint v h) (get_varint64-varint v rest h)

-- On every uint64 `VarintLength` is the number of bytes that `EncodeVarint64` writes, 1 to 10.
pub varint_length-encode_varint64 :
    (v : ℕ)
    → IsU64 v
    → (varint_length v ≡ length (encode_varint64 v))
      × (1 ≤ varint_length v)
      × (varint_length v ≤ 10)
unfolding varint_length
varint_length-encode_varint64 v h =
    omega (arith, length_loop-varint 9 v (lt_wf.apply v) 1, length-varint 9 v, encode_length)
  where
    encode_length : length (encode_varint64 v) ≡ length (varint 9 v)
    encode_length = rw (encode_varint64-varint v h)

-- A byte string of less than 2^32 bytes that `PutLengthPrefixedSlice` wrote is read back whole.
pub get-put_length_prefixed_slice :
    (s rest : Bytes)
    → IsU32 (length s)
    → get_length_prefixed_slice (put_length_prefixed_slice [] s ++ rest) ≡ some (s, rest)
unfolding get_length_prefixed_slice put_length_prefixed_slice
get-put_length_prefixed_slice s rest h =
    rw (mod-eq_of_lt h, append_assoc)
      (ground (
        arith,
        get_varint32-put_varint32 (length s) (s ++ rest) h,
        take_of_append s rest {n = length s},
        drop_of_append s rest {n = length s},
        length-append s rest,
      ))
