-- ===== src/Util/Logging/RoundTrip.antt =====
-- A number that `NumberToString` wrote is read back by `ConsumeDecimalNumber`.
use rally_db.Prelude.{
  ℕ, zero, suc, ◌+◌, ◌-◌, ◌*◌, ◌/◌, ◌%◌, ◌^◌, ◌≤◌, ◌<◌, ◌≡◌, ◌∙◌, refl, [], ◌∷◌, ◌++◌, true, false,
  some, inl, inr, arith, ltb, ◌==◌, length, Bool-cases,
}
use rally_db.Util.Coding.{Bytes, IsU64}
use rally_db.Util.Logging.{
  digits, append_number_to, number_to_string, is_digit, overflows, consume_loop,
  consume_decimal_number,
}

-- The text does not go on with a digit.
unfoldable pub IsEnd : Bytes → Type 0
IsEnd [] = Unit {0}
IsEnd (ch ∷ rest) = is_digit ch ≡ false

pub digits-append : (fuel n : ℕ) (a b : Bytes) → digits fuel n a ++ b ≡ digits fuel n (a ++ b)
unfolding digits
digits-append zero n a b = refl
digits-append (suc fuel) n a b = elim (Bool-cases (ltb n 10)) [
  | inl last ↦ rw (digits, last) refl
  | inr more ↦ rw (digits, more) (digits-append fuel (n / 10) ((48 + n % 10) ∷ a) b)
]

pub length-digits :
    (fuel n : ℕ) (rest : Bytes) → n < fuel → length rest < length (digits fuel n rest)
unfolding digits
length-digits zero n rest h = absurd (omega arith)
length-digits (suc fuel) n rest h = elim (Bool-cases (ltb n 10)) [
  | inl last ↦ rw (digits, last) (omega arith)
  | inr more ↦
      rw (digits, more)
        (let large : 10 ≤ n = ground arith in
          omega (arith, length-digits fuel (n / 10) ((48 + n % 10) ∷ rest)))
]

-- One digit.
pub digit_read :
    (val d : ℕ) (rest : Bytes)
    → d < 10
    → val * 10 + d < 2 ^ 64
    → consume_loop val ((48 + d) ∷ rest) ≡ consume_loop (val * 10 + d) rest
unfolding consume_loop is_digit overflows
digit_read val d rest h fits =
    let digit : is_digit (48 + d) ≡ true = ground arith in
    let fine : overflows val (48 + d) ≡ false = ground arith in
    let back : 48 + d - 48 ≡ d = omega arith in rw (consume_loop, digit, fine, back) refl

pub consume_loop-digits :
    (fuel n : ℕ) (rest : Bytes)
    → n < fuel
    → IsU64 n
    → consume_loop 0 (digits fuel n rest) ≡ consume_loop n rest
unfolding digits
consume_loop-digits zero n rest h fits = absurd (omega arith)
consume_loop-digits (suc fuel) n rest h fits = elim (Bool-cases (ltb n 10)) [
  | inl last ↦
      let small : n < 10 = ground arith in
      let same : 0 * 10 + n % 10 ≡ n = omega arith in
      rw (digits, last) (digit_read 0 (n % 10) rest (omega arith) (omega arith) ∙ rw same refl)
  | inr more ↦
      let large : 10 ≤ n = ground arith in
      let whole : n / 10 * 10 + n % 10 ≡ n = omega arith in
      rw (digits, more)
        (consume_loop-digits fuel (n / 10) ((48 + n % 10) ∷ rest) (omega arith) (omega arith)
          ∙ digit_read (n / 10) (n % 10) rest (omega arith) (omega arith)
          ∙ rw whole refl)
]

pub consume_loop_end : (n : ℕ) (rest : Bytes) → IsEnd rest → consume_loop n rest ≡ some (n, rest)
unfolding consume_loop IsEnd
consume_loop_end n [] h = refl
consume_loop_end n (ch ∷ rest) h = rw (consume_loop, h) refl

-- A uint64 that `NumberToString` wrote is read back by `ConsumeDecimalNumber`, in front of any text that does not go on
-- with a digit, which is left.
pub consume_decimal_number-number_to_string :
    (n : ℕ) (rest : Bytes)
    → IsU64 n
    → IsEnd rest
    → consume_decimal_number (number_to_string n ++ rest) ≡ some (n, rest)
unfolding consume_decimal_number number_to_string append_number_to
consume_decimal_number-number_to_string n rest fits end =
    let text : digits (n + 1) n [] ++ rest ≡ digits (n + 1) n rest =
      digits-append (n + 1) n [] rest in
    let longer : (length rest == length (digits (n + 1) n rest)) ≡ false =
      ground (arith, length-digits (n + 1) n rest) in
    let read : consume_decimal_number (digits (n + 1) n rest) ≡ some (n, rest) =
      rw
        (
          consume_decimal_number,
          consume_loop-digits (n + 1) n rest (omega arith) fits,
          consume_loop_end n rest end,
          longer,
        )
        refl in
    rw text read
