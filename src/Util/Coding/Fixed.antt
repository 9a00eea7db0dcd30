-- ===== src/Util/Coding/Fixed.antt =====
-- Fixed-width integers: decoding inverts encoding, on numbers and on bytes.
use rally_db.Prelude.{ℕ, ◌+◌, ◌*◌, ◌/◌, ◌%◌, ◌^◌, ◌∷◌, ◌++◌, ◌≡◌, All, [], refl, arith, length}
use rally_db.Prelude.Bits.{bit_or_shifted}
use rally_db.Util.Coding.{
  Bytes, IsByte, IsU32, IsU64, encode_fixed32, encode_fixed64, decode_fixed32, decode_fixed64,
}

-- Four bytes in front of the input are read as a sum.
pub decode_fixed32_sum :
    (a b c d : ℕ) (rest : Bytes)
    → IsByte a
    → IsByte b
    → IsByte c
    → IsByte d
    → decode_fixed32 (a ∷ b ∷ c ∷ d ∷ rest) ≡ a + b * 2 ^ 8 + c * 2 ^ 16 + d * 2 ^ 24
unfolding decode_fixed32
decode_fixed32_sum a b c d rest ha hb hc hd = rw (bit_or_shifted 8 a b ha) (
    rw (bit_or_shifted 16 (a + b * 2 ^ 8) c (omega arith))
      (bit_or_shifted 24 (a + b * 2 ^ 8 + c * 2 ^ 16) d (omega arith)))

pub decode_fixed64_sum :
    (a b c d e f g h : ℕ) (rest : Bytes)
    → IsByte a
    → IsByte b
    → IsByte c
    → IsByte d
    → IsByte e
    → IsByte f
    → IsByte g
    → IsByte h
    → decode_fixed64 (a ∷ b ∷ c ∷ d ∷ e ∷ f ∷ g ∷ h ∷ rest)
      ≡ a + b * 2 ^ 8 + c * 2 ^ 16 + d * 2 ^ 24 + e * 2 ^ 32 + f * 2 ^ 40 + g * 2 ^ 48 + h * 2 ^ 56
unfolding decode_fixed64
decode_fixed64_sum a b c d e f g h rest ha hb hc hd he hf hg hh = rw (bit_or_shifted 8 a b ha) (
    rw (bit_or_shifted 16 (a + b * 2 ^ 8) c (omega arith)) (
      rw (bit_or_shifted 24 (a + b * 2 ^ 8 + c * 2 ^ 16) d (omega arith)) (
        rw (bit_or_shifted 32 (a + b * 2 ^ 8 + c * 2 ^ 16 + d * 2 ^ 24) e (omega arith)) (
          rw
            (bit_or_shifted 40 (a + b * 2 ^ 8 + c * 2 ^ 16 + d * 2 ^ 24 + e * 2 ^ 32) f
              (omega arith))
            (rw
              (bit_or_shifted 48 (a + b * 2 ^ 8 + c * 2 ^ 16 + d * 2 ^ 24 + e * 2 ^ 32 + f * 2 ^ 40)
                g (omega arith))
              (bit_or_shifted 56
                (a + b * 2 ^ 8 + c * 2 ^ 16 + d * 2 ^ 24 + e * 2 ^ 32 + f * 2 ^ 40 + g * 2 ^ 48) h
                (omega arith)))))))

-- A uint32 that `EncodeFixed32` wrote is read back, in front of any bytes.
pub decode_fixed32-encode_fixed32 :
    (v : ℕ) (rest : Bytes) → IsU32 v → decode_fixed32 (encode_fixed32 v ++ rest) ≡ v
unfolding encode_fixed32
decode_fixed32-encode_fixed32 v rest h = omega (
  arith,
  decode_fixed32_sum (v / 2 ^ 0 % 256) (v / 2 ^ 8 % 256) (v / 2 ^ 16 % 256) (v / 2 ^ 24 % 256) rest
      (omega arith) (omega arith) (omega arith) (omega arith),
)

-- A uint64 that `EncodeFixed64` wrote is read back, in front of any bytes.
pub decode_fixed64-encode_fixed64 :
    (v : ℕ) (rest : Bytes) → IsU64 v → decode_fixed64 (encode_fixed64 v ++ rest) ≡ v
unfolding encode_fixed64
decode_fixed64-encode_fixed64 v rest h = omega (
  arith,
  decode_fixed64_sum (v / 2 ^ 0 % 256) (v / 2 ^ 8 % 256) (v / 2 ^ 16 % 256) (v / 2 ^ 24 % 256)
      (v / 2 ^ 32 % 256) (v / 2 ^ 40 % 256) (v / 2 ^ 48 % 256) (v / 2 ^ 56 % 256) rest (omega arith)
      (omega arith) (omega arith) (omega arith) (omega arith) (omega arith) (omega arith)
      (omega arith),
)

pub length-encode_fixed32 : (v : ℕ) → length (encode_fixed32 v) ≡ 4
unfolding encode_fixed32
length-encode_fixed32 v = refl

pub length-encode_fixed64 : (v : ℕ) → length (encode_fixed64 v) ≡ 8
unfolding encode_fixed64
length-encode_fixed64 v = refl

-- Eight bytes that are decoded and encoded again are the same.
pub encode_fixed64-decode_fixed64 :
    (p : Bytes) → length p ≡ 8 → All IsByte p → encode_fixed64 (decode_fixed64 p) ≡ p
unfolding encode_fixed64
encode_fixed64-decode_fixed64 (a ∷ b ∷ c ∷ d ∷ e ∷ f ∷ g ∷ h ∷ []) n bytes =
    ground (arith, decode_fixed64_sum a b c d e f g h [])
encode_fixed64-decode_fixed64 p n q = absurd (omega arith)

pub decode_fixed64-IsU64 : (p : Bytes) → length p ≡ 8 → All IsByte p → IsU64 (decode_fixed64 p)
decode_fixed64-IsU64 (a ∷ b ∷ c ∷ d ∷ e ∷ f ∷ g ∷ h ∷ []) n bytes =
    ground (arith, decode_fixed64_sum a b c d e f g h [])
decode_fixed64-IsU64 p n q = absurd (omega arith)
