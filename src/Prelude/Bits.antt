-- ===== src/Prelude/Bits.antt =====
-- `|` and `&` on the patterns that the encoders use, as arithmetic.
mod Digit
pub mod Bound
use Prim.Native.Nat.{ℕ, zero, suc, ◌+◌, ◌*◌, ◌/◌, ◌%◌, ◌^◌, ◌-◌, ◌<◌, bit_and, bit_or}
use mathlib.Core.Path.{◌≡◌, refl, ap}
use mathlib.Core.WellFounded
use native.Mathlib.Nat.{
  div-add-mod, mod-lt, mod-eq_of_lt, add-mul-mod_self_left, pow-suc, one-le-pow,
}
use native.Mathlib.Omega.{arith}
use mathlib.Core.Bool.{Bool, true, false}
use rally_db.Prelude.Tests.{◌==◌, if◌then◌else◌}
use rally_db.Prelude.Order.{lt_wf}
use Digit.{bit_or_digit, bit_and_digit, zero-bit_or}

-- An all-zero operand.
bit_or-zero : (a : ℕ) → bit_or a 0 ≡ a
bit_or-zero a = WellFounded.induction lt_wf {C = λ n. bit_or n 0 ≡ n} a (λ n ih. by_digit n ih)
  where
    by_digit : (n : ℕ) → ((m : ℕ) → m < n → bit_or m 0 ≡ m) → bit_or n 0 ≡ n
    by_digit zero ih = refl
    by_digit (suc n) ih = omega (arith, bit_or_digit (suc n) 0, ih (suc n / 2) (omega arith))

bit_and-zero : (a : ℕ) → bit_and a 0 ≡ 0
bit_and-zero a = WellFounded.induction lt_wf {C = λ n. bit_and n 0 ≡ 0} a (λ n ih. by_digit n ih)
  where
    by_digit : (n : ℕ) → ((m : ℕ) → m < n → bit_and m 0 ≡ 0) → bit_and n 0 ≡ 0
    by_digit zero ih = refl
    by_digit (suc n) ih = omega (arith, bit_and_digit (suc n) 0, ih (suc n / 2) (omega arith))

double : (k q : ℕ) → q * 2 ^ suc k ≡ 2 * (q * 2 ^ k)
double k q = omega (arith, ap (λ (t : ℕ). q * t) (pow-suc 2 k))

-- Low bits `|` a field shifted past them is their sum.
pub bit_or_shifted : (k r q : ℕ) → r < 2 ^ k → bit_or r (q * 2 ^ k) ≡ r + q * 2 ^ k
bit_or_shifted zero zero q h = omega (arith, zero-bit_or (q * 1))
bit_or_shifted zero (suc r) q h = absurd (omega arith)
bit_or_shifted (suc k) r q h = ground (
  arith,
  bit_or_digit r (q * 2 ^ suc k),
  double k q,
  pow-suc 2 k,
  bit_or_shifted k (r / 2) q (omega (arith, pow-suc 2 k)),
)

-- The same with the operands in the other order.
pub shifted-bit_or : (k q r : ℕ) → r < 2 ^ k → bit_or (q * 2 ^ k) r ≡ q * 2 ^ k + r
shifted-bit_or zero q zero h = omega (arith, bit_or-zero (q * 1))
shifted-bit_or zero q (suc r) h = absurd (omega arith)
shifted-bit_or (suc k) q r h = ground (
  arith,
  bit_or_digit (q * 2 ^ suc k) r,
  double k q,
  pow-suc 2 k,
  shifted-bit_or k q (r / 2) (omega (arith, pow-suc 2 k)),
)

-- The last binary digit of a remainder.
double_mod : (x m t : ℕ) → 0 < m → t < 2 → (2 * x + t) % (2 * m) ≡ 2 * (x % m) + t
double_mod x m t pos small =
    let whole : 2 * x + t ≡ 2 * (x % m) + t + 2 * m * (x / m) =
      omega (arith, ap (λ (z : ℕ). 2 * z) (div-add-mod x m)) in
    rw (whole, add-mul-mod_self_left) (mod-eq_of_lt (omega (arith, mod-lt x pos)))

-- A single bit `|` anything: what is below it stays.
or_bit : (k a : ℕ) → bit_or a (2 ^ k) % 2 ^ suc k ≡ a % 2 ^ k + 2 ^ k
or_bit zero a = omega (arith, bit_or_digit a 1)
or_bit (suc k) a = ground (
  arith,
  bit_or_digit a (2 ^ suc k),
  pow-suc 2 k,
  pow-suc 2 (suc k),
  one-le-pow k 2,
  or_bit k (a / 2),
  double_mod (bit_or (a / 2) (2 ^ k)) (2 ^ suc k) (a % 2),
  double_mod (a / 2) (2 ^ k) (a % 2),
)

-- The mask of `k` low bits takes the remainder.
pub and_mask : (k a : ℕ) → bit_and a (2 ^ k - 1) ≡ a % 2 ^ k
and_mask zero a = omega (arith, bit_and-zero a)
and_mask (suc k) a = ground (
  arith,
  bit_and_digit a (2 ^ suc k - 1),
  pow-suc 2 k,
  one-le-pow k 2,
  and_mask k (a / 2),
  double_mod (a / 2) (2 ^ k) (a % 2),
)

pub and_255 : (a : ℕ) → bit_and a 255 ≡ a % 256
and_255 a = and_mask 8 a

-- `(uint8_t)(v | 128)`.
pub or_128 : (v : ℕ) → bit_or v 128 % 256 ≡ v % 128 + 128
or_128 v = or_bit 7 v

-- The two masks of a varint byte, by evaluation at every byte.
module _ (f g : ℕ → ℕ) where
  equal_below : ℕ → Bool
  equal_below zero = true
  equal_below (suc n) = if f n == g n then equal_below n else false

  equal_below_sound : (n : ℕ) → equal_below n ≡ true → (i : ℕ) → i < n → f i ≡ g i
  unfolding equal_below
  equal_below_sound zero e i h = absurd (omega arith)
  equal_below_sound (suc n) e i h = ground (arith, equal_below_sound n (ground arith) i)

pub and_127 : (b : ℕ) → b < 256 → bit_and b 127 ≡ b % 128
unfolding equal_below
and_127 = equal_below_sound _ _ 256 refl

pub and_128 : (b : ℕ) → b < 256 → bit_and b 128 ≡ b / 128 * 128
unfolding equal_below
and_128 = equal_below_sound _ _ 256 refl
