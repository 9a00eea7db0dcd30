-- ===== src/Util/Crc.antt =====
-- util/crc32c.h: checksums and the mask that they are stored with.
use rally_db.Prelude.{ℕ, ◌+◌, ◌-◌, ◌*◌, ◌/◌, ◌%◌, ◌^◌, ◌<◌, bit_or, ◌++◌, ◌≡◌, arith}
use rally_db.Prelude.Bits.{bit_or_shifted}
use rally_db.Util.Coding.{Bytes, IsU32}

-- `crc32c::Extend`, with the contract that the header states: the checksum of a string can be
-- extended by a further part, and it is a uint32.
pub record Crc : Type 0 where
  pub extend : ℕ → Bytes → ℕ
  pub extend-append : (c : ℕ) (a b : Bytes) → extend c (a ++ b) ≡ extend (extend c a) b
  pub extend-IsU32 : (c : ℕ) (a : Bytes) → IsU32 c → IsU32 (extend c a)

abbrev pub checksum : Crc → Bytes → ℕ
checksum crc bytes = crc.extend 0 bytes

abbrev pub mask_delta : ℕ
mask_delta = 2726488792

unfoldable pub mask : ℕ → ℕ
mask crc = (bit_or (crc / 2 ^ 15) (crc * 2 ^ 17 % 2 ^ 32) + mask_delta) % 2 ^ 32

unfoldable pub unmask : ℕ → ℕ
unmask masked_crc =
    let rot = (masked_crc + 2 ^ 32 - mask_delta) % 2 ^ 32 in
    bit_or (rot / 2 ^ 17) (rot * 2 ^ 15 % 2 ^ 32)

-- The two rotations.
rotate_right :
    (c : ℕ)
    → c < 2 ^ 32
    → bit_or (c / 2 ^ 15) (c * 2 ^ 17 % 2 ^ 32) ≡ c / 2 ^ 15 + c % 2 ^ 15 * 2 ^ 17
rotate_right c h =
    let e : c * 2 ^ 17 % 2 ^ 32 ≡ c % 2 ^ 15 * 2 ^ 17 = omega arith in
    rw e (bit_or_shifted 17 (c / 2 ^ 15) (c % 2 ^ 15) (omega arith))

rotate_left :
    (c : ℕ)
    → c < 2 ^ 32
    → bit_or (c / 2 ^ 17) (c * 2 ^ 15 % 2 ^ 32) ≡ c / 2 ^ 17 + c % 2 ^ 17 * 2 ^ 15
rotate_left c h =
    let e : c * 2 ^ 15 % 2 ^ 32 ≡ c % 2 ^ 17 * 2 ^ 15 = omega arith in
    rw e (bit_or_shifted 15 (c / 2 ^ 17) (c % 2 ^ 17) (omega arith))

-- `Unmask` undoes `Mask` on every uint32, and a masked checksum is a uint32.
pub unmask-mask : (c : ℕ) → IsU32 c → (unmask (mask c) ≡ c) × IsU32 (mask c)
unfolding unmask mask
unmask-mask c h =
    rw
      (
        rotate_right c h,
        unshifted (c / 2 ^ 15 + c % 2 ^ 15 * 2 ^ 17) (omega arith),
        rotate_left (c / 2 ^ 15 + c % 2 ^ 15 * 2 ^ 17) (omega arith),
      )
      (omega arith, omega arith)
  where
    unshifted :
        (r : ℕ) → r < 2 ^ 32 → ((r + mask_delta) % 2 ^ 32 + 2 ^ 32 - mask_delta) % 2 ^ 32 ≡ r
    unshifted r h = omega arith
