-- ===== src/Util/Coding.antt =====
-- util/coding.h and util/coding.cc: integers and byte strings as bytes.
-- A pointer pair `p, limit` and a `Slice` are the list of the bytes from `p` on; a `std::string`
-- that is appended to is a list too. A `Get...` call returns what it parsed with the input that is
-- left, or `none` for `false` and `nullptr`: no caller reads its input after a failed call.
pub mod Fixed
pub mod Varint
pub mod RoundTrip
pub mod Takes
use rally_db.Prelude.{
  ℕ, zero, suc, ◌+◌, ◌*◌, ◌/◌, ◌%◌, ◌^◌, ◌≤◌, ◌<◌, bit_and, bit_or, List, [], ◌∷◌, ◌++◌, Bool, true,
  false, Option, none, some, arith, ltb, leb, ◌==◌, if◌then◌else◌, length, get_or, take, drop, All,
}
use rally_db.Prelude.Order.{lt_wf}
use mathlib.Core.Logic.{dite}
use mathlib.Core.WellFounded.{Acc}
use native.Mathlib.Decide.{dec_le}

-- A byte is a number below 256.
abbrev pub Bytes : Type 0
Bytes = List ℕ

abbrev pub IsByte : ℕ → Type 0
IsByte b = b < 256

abbrev pub IsU32 : ℕ → Type 0
IsU32 v = v < 2 ^ 32

abbrev pub IsU64 : ℕ → Type 0
IsU64 v = v < 2 ^ 64

-- `static_cast<uint8_t>(v >> k)`
abbrev byte_at : ℕ → ℕ → ℕ
byte_at v k = v / 2 ^ k % 256

unfoldable pub encode_fixed32 : ℕ → Bytes
encode_fixed32 v = byte_at v 0 ∷ byte_at v 8 ∷ byte_at v 16 ∷ byte_at v 24 ∷ []

unfoldable pub encode_fixed64 : ℕ → Bytes
encode_fixed64 v =
    byte_at v 0
    ∷ byte_at v 8
    ∷ byte_at v 16
    ∷ byte_at v 24
    ∷ byte_at v 32
    ∷ byte_at v 40
    ∷ byte_at v 48
    ∷ byte_at v 56
    ∷ []

-- `static_cast<uint64_t>(buffer[i]) << 8 * i`. The decoders do not check their input's length: a
-- byte past its end, which no caller lets them read, counts as 0 here.
abbrev shifted_byte : Bytes → ℕ → ℕ → ℕ
shifted_byte p i k = get_or p i 0 * 2 ^ k

unfoldable pub decode_fixed32 : Bytes → ℕ
decode_fixed32 p =
    bit_or (bit_or (bit_or (get_or p 0 0) (shifted_byte p 1 8)) (shifted_byte p 2 16))
      (shifted_byte p 3 24)

unfoldable pub decode_fixed64 : Bytes → ℕ
decode_fixed64 p =
    let low =
      bit_or (bit_or (bit_or (get_or p 0 0) (shifted_byte p 1 8)) (shifted_byte p 2 16))
        (shifted_byte p 3 24) in
    bit_or
      (bit_or (bit_or (bit_or low (shifted_byte p 4 32)) (shifted_byte p 5 40))
        (shifted_byte p 6 48))
      (shifted_byte p 7 56)

unfoldable pub put_fixed32 : Bytes → ℕ → Bytes
put_fixed32 dst v = dst ++ encode_fixed32 v

unfoldable pub put_fixed64 : Bytes → ℕ → Bytes
put_fixed64 dst v = dst ++ encode_fixed64 v

-- `*(ptr++) = v | B` stores the low byte of `v | 128`.
abbrev more_byte : ℕ → ℕ
more_byte v = bit_or v 128 % 256

unfoldable pub encode_varint32 : ℕ → Bytes
encode_varint32 v =
    if ltb v (2 ^ 7)
    then v % 256 ∷ []
    else if ltb v (2 ^ 14)
    then more_byte v ∷ (v / 2 ^ 7 % 256) ∷ []
    else if ltb v (2 ^ 21)
    then more_byte v ∷ more_byte (v / 2 ^ 7) ∷ (v / 2 ^ 14 % 256) ∷ []
    else if ltb v (2 ^ 28)
    then more_byte v ∷ more_byte (v / 2 ^ 7) ∷ more_byte (v / 2 ^ 14) ∷ (v / 2 ^ 21 % 256) ∷ []
    else more_byte v
      ∷ more_byte (v / 2 ^ 7)
      ∷ more_byte (v / 2 ^ 14)
      ∷ more_byte (v / 2 ^ 21)
      ∷ (v / 2 ^ 28 % 256)
      ∷ []

unfoldable pub put_varint32 : Bytes → ℕ → Bytes
put_varint32 dst v = dst ++ encode_varint32 v

pub shift_shrinks : (v : ℕ) → 128 ≤ v → v / 128 < v
shift_shrinks v h = omega arith

-- `while (v >= B)`: the loop ends since `v >> 7` is smaller than `v`.
pub encode_varint64_loop : (v : ℕ) → Acc ◌<◌ v → Bytes
encode_varint64_loop v (Acc.intro _ smaller) =
    dite (dec_le 128 v)
      (λ h. more_byte v ∷ encode_varint64_loop (v / 128) (smaller _ (shift_shrinks v h)))
      (λ _. (v % 256) ∷ [])

unfoldable pub encode_varint64 : ℕ → Bytes
unfolding encode_varint64_loop lt_wf dec_le
encode_varint64 v = encode_varint64_loop v (lt_wf.apply v)

unfoldable pub put_varint64 : Bytes → ℕ → Bytes
put_varint64 dst v = dst ++ encode_varint64 v

-- `dst->append(value)` behind `PutVarint32(dst, value.size())`, which narrows the size to 32 bits.
unfoldable pub put_length_prefixed_slice : Bytes → Bytes → Bytes
put_length_prefixed_slice dst value = put_varint32 dst (length value % 2 ^ 32) ++ value

pub varint_length_loop : (v : ℕ) → Acc ◌<◌ v → ℕ → ℕ
varint_length_loop v (Acc.intro _ smaller) len =
    dite (dec_le 128 v)
      (λ h. varint_length_loop (v / 128) (smaller _ (shift_shrinks v h)) (len + 1)) (λ _. len)

unfoldable pub varint_length : ℕ → ℕ
unfolding varint_length_loop lt_wf dec_le
varint_length v = varint_length_loop v (lt_wf.apply v) 1

-- The loop of `GetVarint32PtrFallback` (`last` 28, `width` 32) and of `GetVarint64Ptr` (63, 64).
unfoldable pub get_varint_loop : (last width : ℕ) → Bytes → (shift result : ℕ) → Option (ℕ × Bytes)
get_varint_loop last width [] shift result = none
get_varint_loop last width (byte ∷ p) shift result =
    let more =
      get_varint_loop last width p (shift + 7)
        (bit_or result (bit_and byte 127 * 2 ^ shift % 2 ^ width)) in
    if leb shift last
    then (if bit_and byte 128 == 0
        then some (bit_or result (byte * 2 ^ shift % 2 ^ width), p)
        else more)
    else none

unfoldable pub get_varint32_ptr_fallback : Bytes → Option (ℕ × Bytes)
unfolding get_varint_loop
get_varint32_ptr_fallback p = get_varint_loop 28 32 p 0 0

-- A first byte below 128 is the whole number.
unfoldable pub get_varint32_ptr : Bytes → Option (ℕ × Bytes)
unfolding get_varint32_ptr_fallback
get_varint32_ptr [] = get_varint32_ptr_fallback []
get_varint32_ptr (byte ∷ p) =
    if bit_and byte 128 == 0 then some (byte, p) else get_varint32_ptr_fallback (byte ∷ p)

unfoldable pub get_varint64_ptr : Bytes → Option (ℕ × Bytes)
unfolding get_varint_loop
get_varint64_ptr p = get_varint_loop 63 64 p 0 0

unfoldable pub get_varint32 : Bytes → Option (ℕ × Bytes)
get_varint32 input = get_varint32_ptr input

unfoldable pub get_varint64 : Bytes → Option (ℕ × Bytes)
get_varint64 input = get_varint64_ptr input

unfoldable pub get_length_prefixed_slice : Bytes → Option (Bytes × Bytes)
get_length_prefixed_slice input = elim (get_varint32 input) [
  | none ↦ none
  | some (len, rest) ↦ if leb len (length rest) then some (take len rest, drop len rest) else none
]
