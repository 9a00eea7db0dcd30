-- ===== src/Util/Coding/Varint.antt =====
-- Variable-length integers: the encoders against one description of the format, and the decoders
-- against it in turn.
use rally_db.Prelude.{
  ℕ, zero, suc, ◌+◌, ◌*◌, ◌/◌, ◌%◌, ◌^◌, ◌≤◌, ◌<◌, bit_and, [], ◌∷◌, ◌++◌, ◌≡◌, ap, some, arith,
  ltb, if◌then◌else◌, length, All,
}
use rally_db.Prelude.Bits.{bit_or_shifted, or_128, and_127, and_128}
use rally_db.Prelude.Order.{lt_wf}
use rally_db.Util.Coding.{
  Bytes, IsByte, IsU32, IsU64, encode_varint32, encode_varint64, encode_varint64_loop,
  varint_length_loop, get_varint_loop, get_varint32, get_varint32_ptr, get_varint64,
  get_varint64_ptr,
}
use mathlib.Core.WellFounded.{Acc}
use native.Mathlib.Numerals.{towards_suc}
use native.Mathlib.Nat.{div-add-mod, mod-eq_of_lt}

-- The format: groups of seven bits, the lowest first, each but the last with its top bit set. A
-- number below 128 ^ (k + 1) takes at most k + 1 bytes.
unfoldable pub varint : ℕ → ℕ → Bytes
varint zero v = v ∷ []
varint (suc k) v =
    let rest = varint k (v / 128) in if ltb v 128 then v ∷ [] else (v % 128 + 128) ∷ rest

pub encode_varint32-varint : (v : ℕ) → IsU32 v → encode_varint32 v ≡ varint 4 v
unfolding encode_varint32 varint
encode_varint32-varint v h =
    ground (arith, or_128 v, or_128 (v / 2 ^ 7), or_128 (v / 2 ^ 14), or_128 (v / 2 ^ 21))

encode_loop-varint :
    (k v : ℕ) (w : Acc ◌<◌ v) → v < 128 ^ suc k → encode_varint64_loop v w ≡ varint k v
unfolding encode_varint64_loop varint
encode_loop-varint zero v (Acc.intro _ smaller) h = ground arith
encode_loop-varint (suc k) v (Acc.intro _ smaller) h =
    grind
      (arith, or_128 v, λ (w : Acc ◌<◌ (v / 128)). encode_loop-varint k (v / 128) w (omega arith))

pub encode_varint64-varint : (v : ℕ) → IsU64 v → encode_varint64 v ≡ varint 9 v
unfolding encode_varint64
encode_varint64-varint v h = encode_loop-varint 9 v (lt_wf.apply v) (omega arith)

pub length_loop-varint :
    (k v : ℕ) (w : Acc ◌<◌ v) (len : ℕ)
    → v < 128 ^ suc k
    → varint_length_loop v w len + 1 ≡ len + length (varint k v)
unfolding varint_length_loop varint
length_loop-varint zero v (Acc.intro _ smaller) len h = ground arith
length_loop-varint (suc k) v (Acc.intro _ smaller) len h =
    grind
      (arith, λ (w : Acc ◌<◌ (v / 128)). length_loop-varint k (v / 128) w (len + 1) (omega arith))

varint-IsByte : (k v : ℕ) → v < 128 ^ suc k → All IsByte (varint k v)
unfolding varint
varint-IsByte zero v h = (omega arith, tt)
varint-IsByte (suc k) v h = ground (arith, varint-IsByte k (v / 128) (omega arith))

pub length-varint : (k v : ℕ) → (1 ≤ length (varint k v)) × (length (varint k v) ≤ k + 1)
unfolding varint
length-varint zero v = omega arith
length-varint (suc k) v = ground (arith, length-varint k (v / 128))

-- One round on the last byte of a number, and on any other.
module _ (last width : ℕ) where
  last_round :
      (w shift acc : ℕ) (rest : Bytes)
      → w < 128
      → shift ≤ last
      → acc < 2 ^ shift
      → acc + w * 2 ^ shift < 2 ^ width
      → get_varint_loop last width (w ∷ rest) shift acc ≡ some (acc + w * 2 ^ shift, rest)
  unfolding get_varint_loop
  last_round w shift acc rest hw hs ha fits =
      let whole : w * 2 ^ shift % 2 ^ width ≡ w * 2 ^ shift = mod-eq_of_lt (omega arith) in
      ground (arith, and_128 w, bit_or_shifted shift acc w ha)

  inner_round :
      (g shift acc : ℕ) (rest : Bytes)
      → g < 128
      → shift ≤ last
      → acc < 2 ^ shift
      → acc + g * 2 ^ shift < 2 ^ width
      → get_varint_loop last width ((g + 128) ∷ rest) shift acc
        ≡ get_varint_loop last width rest (shift + 7) (acc + g * 2 ^ shift)
  unfolding get_varint_loop
  inner_round g shift acc rest hg hs ha fits =
      let whole : g * 2 ^ shift % 2 ^ width ≡ g * 2 ^ shift = mod-eq_of_lt (omega arith) in
      let group : bit_and (g + 128) 127 ≡ g = omega (arith, and_127 (g + 128)) in
      ground (arith, and_128 (g + 128), bit_or_shifted shift acc g ha)

  -- `w` is what is still to be read, and counts from bit `shift` on.
  loop-varint :
      (k w shift acc : ℕ) (rest : Bytes)
      → w < 128 ^ suc k
      → shift + 7 * k ≤ last
      → acc < 2 ^ shift
      → acc + w * 2 ^ shift < 2 ^ width
      → get_varint_loop last width (varint k w ++ rest) shift acc ≡ some (acc + w * 2 ^ shift, rest)
  unfolding varint
  loop-varint zero w shift acc rest hw hs ha fits =
      last_round w shift acc rest (omega arith) (omega arith) ha fits
  loop-varint (suc k) w shift acc rest hw hs ha fits = ground (
    arith,
    last_round w shift acc rest,
    inner_round (w % 128) shift acc (varint k (w / 128) ++ rest),
    split,
    seven,
    below,
    loop-varint k (w / 128) (shift + 7) (acc + w % 128 * 2 ^ shift) rest (omega arith),
  )
    where
      seven : 2 ^ (shift + 7) ≡ 128 * 2 ^ shift
      seven = simp towards_suc (omega arith)

      split : w * 2 ^ shift ≡ w % 128 * 2 ^ shift + w / 128 * 2 ^ (shift + 7)
      split = omega (
        arith,
        ap (λ (t : ℕ). t * 2 ^ shift) (div-add-mod w 128),
        ap (λ (t : ℕ). w / 128 * t) seven,
      )

      below : acc + w % 128 * 2 ^ shift < 2 ^ (shift + 7)
      below = grind (arith, seven)

pub get_varint32-varint :
    (v : ℕ) (rest : Bytes) → IsU32 v → get_varint32 (varint 4 v ++ rest) ≡ some (v, rest)
unfolding get_varint32 get_varint32_ptr varint
get_varint32-varint v rest h =
    ground (arith, and_128 v, and_128 (v % 128 + 128), loop-varint 28 32 4 v 0 0 rest)

pub get_varint64-varint :
    (v : ℕ) (rest : Bytes) → IsU64 v → get_varint64 (varint 9 v ++ rest) ≡ some (v, rest)
unfolding get_varint64 get_varint64_ptr
get_varint64-varint v rest h = ground (arith, loop-varint 63 64 9 v 0 0 rest)
