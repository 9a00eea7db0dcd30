-- ===== src/Table/Block/Entry.antt =====
-- The entries of a block: what `BlockBuilder::Add` writes and `DecodeEntry` reads.
use rally_db.Prelude.{
  ℕ, ◌+◌, ◌-◌, ◌%◌, ◌^◌, ◌≤◌, ◌<◌, ◌≡◌, ◌∙◌, bit_or, [], ◌∷◌, ◌++◌, Option, none, some, arith,
  length, length-append, length-drop, drop, append_assoc,
}
use rally_db.Prelude.Bits.{and_128}
use rally_db.Prelude.Bits.Bound.{le-bit_or}
use rally_db.Util.Coding.{
  Bytes, IsU32, put_varint32, get_varint32, get_varint32_ptr, encode_varint32,
}
use rally_db.Util.Coding.RoundTrip.{get_varint32-put_varint32}
use rally_db.Util.Coding.Varint.{encode_varint32-varint, length-varint}
use rally_db.Table.Block.Builder.{put_entry}
use rally_db.Table.Block.Iter.{Header, decode_lengths, check_lengths, decode_entry}
use native.Mathlib.Nat.{mod-eq_of_lt}

-- `DecodeEntry` without its fast path.
unfoldable pub slow_path : Bytes → Option Header
slow_path p = elim (decode_lengths p) [ none ↦ none | some h ↦ check_lengths h ]

one_byte : (a : ℕ) (p : Bytes) → a < 128 → get_varint32_ptr (a ∷ p) ≡ some (a, p)
unfolding get_varint32_ptr
one_byte a p h = ground (arith, and_128 a)

one_byte_lengths :
    (a b c : ℕ) (p : Bytes)
    → bit_or (bit_or a b) c < 128
    → decode_lengths (a ∷ b ∷ c ∷ p)
      ≡ some (record { shared = a; non_shared = b; value_length = c; tail = p })
unfolding decode_lengths
one_byte_lengths a b c p h =
    let ab = le-bit_or a b in
    let abc = le-bit_or (bit_or a b) c in
    ground (
      arith,
      one_byte a (b ∷ c ∷ p) (omega arith),
      one_byte b (c ∷ p) (omega arith),
      one_byte c p (omega arith),
    )

-- The fast path of `DecodeEntry`, for three lengths of a byte each, gives what the varint decoders
-- give, on every input of three bytes or more.
pub decode_entry-slow_path : (p : Bytes) → 3 ≤ length p → decode_entry p ≡ slow_path p
unfolding decode_entry slow_path
decode_entry-slow_path [] h = absurd (omega arith)
decode_entry-slow_path (a ∷ []) h = absurd (omega arith)
decode_entry-slow_path (a ∷ b ∷ []) h = absurd (omega arith)
decode_entry-slow_path (a ∷ b ∷ c ∷ p) h = ground (arith, one_byte_lengths a b c p)

read_varint :
    (v : ℕ) (rest : Bytes) → IsU32 v → get_varint32_ptr (encode_varint32 v ++ rest) ≡ some (v, rest)
unfolding get_varint32 put_varint32
read_varint v rest h = get_varint32-put_varint32 v rest h

read_lengths :
    (shared non_shared value_length : ℕ) (tail : Bytes)
    → IsU32 shared
    → IsU32 non_shared
    → IsU32 value_length
    → decode_lengths (
        encode_varint32 shared
        ++ (encode_varint32 non_shared ++ (encode_varint32 value_length ++ tail)))
      ≡ some (record {
        shared = shared;
        non_shared = non_shared;
        value_length = value_length;
        tail = tail;
      })
unfolding decode_lengths
read_lengths shared non_shared value_length tail hs hn hv = ground (
  arith,
  read_varint shared (encode_varint32 non_shared ++ (encode_varint32 value_length ++ tail)) hs,
  read_varint non_shared (encode_varint32 value_length ++ tail) hn,
  read_varint value_length tail hv,
)

entry_layout :
    (shared : ℕ) (key val rest : Bytes)
    → IsU32 (length key)
    → shared ≤ length key
    → IsU32 (length val)
    → put_entry [] shared key val ++ rest
      ≡ encode_varint32 shared
        ++ (encode_varint32 (length key - shared)
            ++ (encode_varint32 (length val) ++ (drop shared key ++ (val ++ rest))))
unfolding put_entry put_varint32
entry_layout shared key val rest hk hs hv =
    rw
      (small shared (omega arith), small (length key - shared) (omega arith), small (length val) hv)
      (simp append_assoc)
  where
    small : (n : ℕ) → IsU32 n → n % 2 ^ 32 ≡ n
    small n h = mod-eq_of_lt h

accepts :
    (h : Header)
    → IsU32 (length h.tail)
    → h.non_shared + h.value_length ≤ length h.tail
    → check_lengths h ≡ some h
unfolding check_lengths
accepts h small fits =
    ground
      (arith, mod-eq_of_lt small, mod-eq_of_lt {n = h.non_shared + h.value_length} {m = 2 ^ 32})

length_encode : (v : ℕ) → IsU32 v → 1 ≤ length (encode_varint32 v)
length_encode v h = rw (encode_varint32-varint v h) (length-varint 4 v).0

read_slowly :
    (shared non_shared value_length : ℕ) (tail : Bytes)
    → IsU32 shared
    → IsU32 non_shared
    → IsU32 value_length
    → IsU32 (length tail)
    → non_shared + value_length ≤ length tail
    → slow_path (
        encode_varint32 shared
        ++ (encode_varint32 non_shared ++ (encode_varint32 value_length ++ tail)))
      ≡ some (record {
        shared = shared;
        non_shared = non_shared;
        value_length = value_length;
        tail = tail;
      })
unfolding slow_path
read_slowly shared non_shared value_length tail hs hn hv small fits =
    rw (slow_path, read_lengths shared non_shared value_length tail hs hn hv) (accepts _ small fits)

-- An entry that `Add` wrote is decoded: the lengths, and the rest of the key, the value and what
-- follows them. The key and the value are shorter than 2^32, so is what is left of the block, and at
-- most the whole key is shared.
pub decode_entry-put_entry :
    (shared : ℕ) (key val rest : Bytes)
    → shared ≤ length key
    → IsU32 (length key + length val + length rest)
    → decode_entry (put_entry [] shared key val ++ rest)
      ≡ some (record {
        shared = shared;
        non_shared = length key - shared;
        value_length = length val;
        tail = drop shared key ++ (val ++ rest);
      })
decode_entry-put_entry shared key val rest hs h =
    let tail = drop shared key ++ (val ++ rest) in
    let size : length tail ≡ length key - shared + (length val + length rest) = omega (
      arith,
      length-append (drop shared key) (val ++ rest),
      length-drop shared key,
      length-append val rest,
    ) in
    rw (entry_layout shared key val rest (omega arith) hs (omega arith)) (
      decode_entry-slow_path _ (long tail)
      ∙ read_slowly shared (length key - shared) (length val) tail (omega arith) (omega arith)
          (omega arith) (omega arith) (omega arith))
  where
    long :
        (tail : Bytes)
        → 3
          ≤ length (
              encode_varint32 shared
              ++ (encode_varint32 (length key - shared) ++ (encode_varint32 (length val) ++ tail)))
    long tail = omega (
      arith,
      length-append (encode_varint32 shared)
          (encode_varint32 (length key - shared) ++ (encode_varint32 (length val) ++ tail)),
      length-append (encode_varint32 (length key - shared)) (encode_varint32 (length val) ++ tail),
      length-append (encode_varint32 (length val)) tail,
      length_encode shared (omega arith),
      length_encode (length key - shared) (omega arith),
      length_encode (length val) (omega arith),
    )
