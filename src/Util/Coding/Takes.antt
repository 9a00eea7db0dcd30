-- ===== src/Util/Coding/Takes.antt =====
-- The decoders on any input: a call that succeeds takes bytes off the front.
use rally_db.Prelude.{
  ℕ, ◌+◌, ◌*◌, ◌%◌, ◌^◌, ◌<◌, bit_and, bit_or, [], ◌∷◌, ◌≡◌, some, arith, length, length-drop,
  length-take, Option-cases, inl, inr,
}
use rally_db.Util.Coding.{
  Bytes, get_varint_loop, get_varint32, get_varint32_ptr, get_varint32_ptr_fallback, get_varint64,
  get_varint64_ptr, get_length_prefixed_slice,
}

varint_loop_takes :
    (last width : ℕ) (src : Bytes) (shift result v : ℕ) (rest : Bytes)
    → get_varint_loop last width src shift result ≡ some (v, rest)
    → length rest < length src
unfolding get_varint_loop
varint_loop_takes last width [] shift result v rest e = cc
varint_loop_takes last width (b ∷ src) shift result v rest e = ground (
  arith,
  varint_loop_takes last width src (shift + 7)
      (bit_or result (bit_and b 127 * 2 ^ shift % 2 ^ width)) v rest,
)

-- A varint takes a byte at least.
pub get_varint32_takes :
    (src : Bytes) (v : ℕ) (rest : Bytes)
    → get_varint32 src ≡ some (v, rest)
    → length rest < length src
unfolding get_varint32 get_varint32_ptr get_varint32_ptr_fallback
get_varint32_takes [] v rest e = varint_loop_takes 28 32 [] 0 0 v rest e
get_varint32_takes (b ∷ src) v rest e = ground (arith, varint_loop_takes 28 32 (b ∷ src) 0 0 v rest)

-- A length-prefixed string that is read is part of the input, behind a prefix of a byte at least.
pub get_length_prefixed_slice_takes :
    (src s rest : Bytes)
    → get_length_prefixed_slice src ≡ some (s, rest)
    → length rest + length s < length src
unfolding get_length_prefixed_slice
get_length_prefixed_slice_takes src s rest e = elim (Option-cases (get_varint32 src)) [
  | inl miss ↦ absurd (ground arith)
  | inr ((len, rest'), hit) ↦
      ground (arith, get_varint32_takes src len rest', length-drop len rest', length-take len rest')
]

pub get_varint64_takes :
    (src : Bytes) (v : ℕ) (rest : Bytes)
    → get_varint64 src ≡ some (v, rest)
    → length rest < length src
unfolding get_varint64 get_varint64_ptr
get_varint64_takes src v rest e = varint_loop_takes 63 64 src 0 0 v rest e
