-- ===== src/Prelude/Bits/Bound.antt =====
-- `|` is at least each operand.
use Prim.Native.Nat.{ℕ, zero, suc, ◌/◌, ◌≤◌, ◌<◌, bit_or}
use mathlib.Core.WellFounded
use native.Mathlib.Omega.{arith}
use rally_db.Prelude.Order.{lt_wf}
use rally_db.Prelude.Bits.Digit.{bit_or_digit, zero-bit_or}

pub le-bit_or : (a b : ℕ) → (a ≤ bit_or a b) × (b ≤ bit_or a b)
le-bit_or a =
    WellFounded.induction lt_wf {C = λ n. (b : ℕ) → (n ≤ bit_or n b) × (b ≤ bit_or n b)} a
      (λ n ih. by_digit n ih)
  where
    by_digit :
        (n : ℕ)
        → ((m : ℕ) → m < n → (b : ℕ) → (m ≤ bit_or m b) × (b ≤ bit_or m b))
        → (b : ℕ) → (n ≤ bit_or n b) × (b ≤ bit_or n b)
    by_digit zero ih b = omega (arith, zero-bit_or b)
    by_digit (suc n) ih b =
        omega (arith, bit_or_digit (suc n) b, ih (suc n / 2) (omega arith) (b / 2))
