-- ===== src/Util/Bloom/Bits.antt =====
-- A bit that is set in a byte is found, and stays found when others are set.
use rally_db.Prelude.{
  ℕ, zero, suc, ◌+◌, ◌*◌, ◌/◌, ◌%◌, ◌^◌, ◌<◌, ◌≡◌, refl, subst, ap, bit_and, bit_or, Bool, true,
  false, ◌&&◌, ◌||◌, not, Bool-cases, inl, inr, arith, ◌==◌, length, get_or, get_or-set_self,
  get_or-set_other, All, All-get_or, All-set, length-set,
}
use rally_db.Util.Coding.{Bytes, IsByte}
use rally_db.Util.Bloom.{set_bit, bit_is_clear}
use native.Mathlib.Decide.{ℕ_discrete}

-- A test of each of the first numbers, from the last one down.
passes : (test : ℕ → Bool) → ℕ → Bool
passes test zero = true
passes test (suc last) = passes test last && test last

passes_at :
    (test : ℕ → Bool) (count : ℕ) → passes test count ≡ true → (k : ℕ) → k < count → test k ≡ true
unfolding passes
passes_at test zero e k below = absurd (omega arith)
passes_at test (suc last) e k below = elim (Bool-cases (passes test last)) [
  | inl earlier ↦ ground (arith, passes_at test last earlier k)
  | inr failed ↦ absurd (ground arith)
]

-- Bit `j` of a byte `x` in which bit `i` is set.
abbrev clear : (x i j : ℕ) → Bool
clear x i j = bit_and (bit_or x (2 ^ i) % 256) (2 ^ j) == 0

abbrev keeps_bit : (x i j : ℕ) → Bool
keeps_bit x i j = (not (i == j) && bit_and x (2 ^ j) == 0) || not (clear x i j)

byte_table : passes (λ n. keeps_bit (n / 64) (n / 8 % 8) (n % 8)) 16384 ≡ true
unfolding passes
byte_table = refl

keeps_bit_lem : (x i j : ℕ) → x < 256 → i < 8 → j < 8 → keeps_bit x i j ≡ true
keeps_bit_lem x i j hx hi hj =
    let n : ℕ = x * 64 + i * 8 + j in
    let ex : n / 64 ≡ x = omega arith in
    let ei : n / 8 % 8 ≡ i = omega arith in
    let ej : n % 8 ≡ j = omega arith in
    let at : keeps_bit (n / 64) (n / 8 % 8) (n % 8) ≡ true =
      passes_at (λ n. keeps_bit (n / 64) (n / 8 % 8) (n % 8)) 16384 byte_table n (omega arith) in
    subst (λ u. keeps_bit u i j ≡ true) ex
      (subst (λ u. keeps_bit (n / 64) u j ≡ true) ei
        (subst (λ u. keeps_bit (n / 64) (n / 8 % 8) u ≡ true) ej at))

-- A set bit is not clear.
pub bit_is_clear-set_bit_self :
    (a : Bytes) (p : ℕ) → All IsByte a → p / 8 < length a → bit_is_clear (set_bit a p) p ≡ false
unfolding bit_is_clear set_bit
bit_is_clear-set_bit_self a p h lt =
    rw (get_or-set_self a (p / 8) (bit_or (get_or a (p / 8) 0) (2 ^ (p % 8)) % 256) 0 lt) (
      ground (
        arith,
        keeps_bit_lem (get_or a (p / 8) 0) (p % 8) (p % 8)
            (All-get_or IsByte a (p / 8) 0 h (omega arith)) (omega arith) (omega arith),
      ))

-- Setting a bit clears none.
pub bit_is_clear-set_bit :
    (a : Bytes) (p q : ℕ)
    → All IsByte a
    → p / 8 < length a
    → bit_is_clear a q ≡ false
    → bit_is_clear (set_bit a p) q ≡ false
unfolding bit_is_clear set_bit
bit_is_clear-set_bit a p q h lt e = elim (ℕ_discrete (p / 8) (q / 8)) [
  | yes same ↦ rw (← same) (
      rw (get_or-set_self a (p / 8) (bit_or (get_or a (p / 8) 0) (2 ^ (p % 8)) % 256) 0 lt) (
        ground (
          arith,
          keeps_bit_lem (get_or a (p / 8) 0) (p % 8) (q % 8)
              (All-get_or IsByte a (p / 8) 0 h (omega arith)) (omega arith) (omega arith),
          ap (λ (t : ℕ). get_or a t 0) same,
        )))
  | no differ ↦
      rw
        (get_or-set_other a (p / 8) (q / 8) (bit_or (get_or a (p / 8) 0) (2 ^ (p % 8)) % 256) 0
          differ)
        e
]

pub length-set_bit : (a : Bytes) (p : ℕ) → length (set_bit a p) ≡ length a
unfolding set_bit
length-set_bit a p = length-set a (p / 8) _

pub set_bit-All : (a : Bytes) (p : ℕ) → All IsByte a → All IsByte (set_bit a p)
unfolding set_bit
set_bit-All a p h = All-set IsByte a (p / 8) _ h (omega arith)
