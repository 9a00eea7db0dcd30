-- ===== src/Util/Logging.antt =====
-- util/logging.cc: numbers and strings as text.
pub mod RoundTrip
use rally_db.Prelude.{
  ℕ, zero, suc, ◌+◌, ◌-◌, ◌*◌, ◌/◌, ◌%◌, ◌^◌, List, [], ◌∷◌, ◌++◌, Bool, true, false, ◌&&◌, ◌||◌,
  Option, none, some, ltb, leb, ◌==◌, if◌then◌else◌, length,
}
use rally_db.Util.Coding.{Bytes}

-- "%llu": the digits, the last one first to be found. A number has no more digits than its value, and one.
unfoldable pub digits : (fuel n : ℕ) → Bytes → Bytes
digits zero n rest = rest
digits (suc fuel) n rest =
    let more = digits fuel (n / 10) ((48 + n % 10) ∷ rest) in
    if ltb n 10 then (48 + n % 10) ∷ rest else more

unfoldable pub append_number_to : Bytes → ℕ → Bytes
append_number_to str num = str ++ digits (num + 1) num []

unfoldable pub number_to_string : ℕ → Bytes
number_to_string num = append_number_to [] num

-- A digit of "%02x".
abbrev pub hex_digit : ℕ → ℕ
hex_digit d = if ltb d 10 then 48 + d else 87 + d

unfoldable pub append_escaped_string_to : Bytes → Bytes → Bytes
append_escaped_string_to str [] = str
append_escaped_string_to str (c ∷ value) =
    let text =
      if leb 32 c && leb c 126
      then c ∷ []
      else 92 ∷ 120 ∷ hex_digit (c / 16) ∷ hex_digit (c % 16) ∷ [] in
    append_escaped_string_to (str ++ text) value

unfoldable pub escape_string : Bytes → Bytes
escape_string value = append_escaped_string_to [] value

unfoldable pub is_digit : ℕ → Bool
is_digit ch = leb 48 ch && leb ch 57

abbrev pub max_uint64 : ℕ
max_uint64 = 2 ^ 64 - 1

unfoldable pub overflows : (val ch : ℕ) → Bool
overflows val ch =
    ltb (max_uint64 / 10) val || (val == max_uint64 / 10 && ltb (48 + max_uint64 % 10) ch)

-- The loop: the number and the input that is left, or `none` for an overflow.
unfoldable pub consume_loop : (val : ℕ) → Bytes → Option (ℕ × Bytes)
consume_loop val [] = some (val, [])
consume_loop val (ch ∷ input) =
    let more = consume_loop (val * 10 + (ch - 48)) input in
    if is_digit ch then (if overflows val ch then none else more) else some (val, ch ∷ input)

-- `ConsumeDecimalNumber`; `none` is `false`.
unfoldable pub consume_decimal_number : Bytes → Option (ℕ × Bytes)
consume_decimal_number input = elim (consume_loop 0 input) [
  | none ↦ none
  | some (val, rest) ↦ if length rest == length input then none else some (val, rest)
]
