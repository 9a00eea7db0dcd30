-- ===== src/Db/FileName/Parsed.antt =====
-- `ParseFileName` on the names that db/filename.cc makes.
use rally_db.Prelude.{
  ℕ, zero, suc, ◌+◌, ◌-◌, ◌/◌, ◌%◌, ◌≤◌, ◌<◌, ◌≡◌, ◌∙◌, refl, ap, [], ◌∷◌, ◌++◌, false, some, inl,
  inr, arith, ltb, ◌==◌, length, length-append, drop, replicate, drop_behind, append_assoc,
  append-nil, Bool-cases,
}
use rally_db.Prelude.Bytes.{same}
use rally_db.Util.Coding.{Bytes, IsU64}
use rally_db.Util.Logging.{digits, is_digit, consume_loop, consume_decimal_number}
use rally_db.Util.Logging.RoundTrip.{
  IsEnd, digits-append, length-digits, digit_read, consume_loop-digits, consume_loop_end,
}
use rally_db.Db.FileName.{
  FileType, log_file, table_file, descriptor_file, temp_file, padded, log_suffix, ldb_suffix,
  sst_suffix, temp_suffix, manifest_prefix, make_file_name, log_file_name, table_file_name,
  sst_table_file_name, descriptor_file_name, temp_file_name, type_of_suffix, parse_numbered,
  parse_descriptor, parse_file_name,
}

consume_loop-replicate :
    (k : ℕ) (rest : Bytes) → consume_loop 0 (replicate k 48 ++ rest) ≡ consume_loop 0 rest
consume_loop-replicate zero rest = refl
consume_loop-replicate (suc k) rest =
    digit_read 0 0 (replicate k 48 ++ rest) (omega arith) (omega arith)
    ∙ consume_loop-replicate k rest

-- The number of a name.
consume_decimal_number-padded :
    (n : ℕ) (rest : Bytes)
    → IsU64 n
    → IsEnd rest
    → consume_decimal_number (padded n ++ rest) ≡ some (n, rest)
unfolding consume_decimal_number padded
consume_decimal_number-padded n rest fits end =
    let text : Bytes = digits (n + 1) n rest in
    let k : ℕ = 6 - length (digits (n + 1) n []) in
    let parts : (replicate k 48 ++ digits (n + 1) n []) ++ rest ≡ replicate k 48 ++ text =
      append_assoc' (replicate k 48) (digits (n + 1) n []) rest
      ∙ ap (λ x. replicate k 48 ++ x) (digits-append (n + 1) n [] rest) in
    let longer : (length rest == length (replicate k 48 ++ text)) ≡ false =
      ground (arith, length-append (replicate k 48) text, length-digits (n + 1) n rest) in
    let read : consume_decimal_number (replicate k 48 ++ text) ≡ some (n, rest) =
      rw
        (
          consume_decimal_number,
          consume_loop-replicate k text,
          consume_loop-digits (n + 1) n rest (omega arith) fits,
          consume_loop_end n rest end,
          longer,
        )
        refl in
    rw parts read
  where
    append_assoc' : (a b c : Bytes) → (a ++ b) ++ c ≡ a ++ (b ++ c)
    append_assoc' a b c = simp append_assoc

-- A name that begins with a digit is that of a numbered file.
digit_first :
    (c : ℕ) (rest : Bytes) → c < 58 → parse_file_name (c ∷ rest) ≡ parse_numbered (c ∷ rest)
unfolding parse_file_name same
digit_first c rest h =
    let no_c : (c == 67) ≡ false = ground arith in
    let no_l : (c == 76) ≡ false = ground arith in
    let no_m : (c == 77) ≡ false = ground arith in rw (parse_file_name, same, no_c, no_l, no_m) refl

digits_first :
    (fuel n : ℕ) (acc : Bytes)
    → n < fuel
    → (c : ℕ) × (rest : Bytes) × (digits fuel n acc ≡ c ∷ rest) × (c < 58)
unfolding digits
digits_first zero n acc h = absurd (omega arith)
digits_first (suc fuel) n acc h = elim (Bool-cases (ltb n 10)) [
  | inl last ↦ (48 + n % 10, acc, rw (digits, last) refl, omega arith)
  | inr more ↦
      let large : 10 ≤ n = ground arith in
      let (c, rest, e, small) = digits_first fuel (n / 10) ((48 + n % 10) ∷ acc) (omega arith) in
      (c, rest, rw (digits, more) e, small)
]

padded_first : (n : ℕ) → (c : ℕ) × (rest : Bytes) × (padded n ≡ c ∷ rest) × (c < 58)
unfolding padded
padded_first n = go (6 - length (digits (n + 1) n []))
  where
    go :
        (k : ℕ)
        → (c : ℕ) × (rest : Bytes) × (replicate k 48 ++ digits (n + 1) n [] ≡ c ∷ rest) × (c < 58)
    go zero = digits_first (n + 1) n [] (omega arith)
    go (suc k) = (48, replicate k 48 ++ digits (n + 1) n [], refl, omega arith)

numbered :
    (n : ℕ) (suffix : Bytes) (t : FileType)
    → IsU64 n
    → IsEnd suffix
    → type_of_suffix suffix ≡ some t
    → parse_file_name (padded n ++ suffix) ≡ some (n, t)
unfolding parse_numbered
numbered n suffix t fits end known =
    let (c, rest, e, small) = padded_first n in
    let head : parse_file_name (padded n ++ suffix) ≡ parse_numbered (padded n ++ suffix) =
      rw e (digit_first c (rest ++ suffix) small) in
    head ∙ rw (parse_numbered, consume_decimal_number-padded n suffix fits end, known) refl

descriptor :
    (n : ℕ) → IsU64 n → parse_file_name (manifest_prefix ++ padded n) ≡ some (n, descriptor_file)
unfolding parse_file_name parse_descriptor same IsEnd
descriptor n fits =
    let read : consume_decimal_number (padded n) ≡ some (n, []) =
      rw append-nil at (consume_decimal_number-padded n [] fits tt) in
    rw (parse_descriptor, read) refl

base_name : (dbname rest : Bytes) → drop (length dbname + 1) (dbname ++ (47 ∷ rest)) ≡ rest
base_name dbname rest =
    drop_behind (dbname ++ (47 ∷ [])) rest (dbname ++ (47 ∷ rest)) (simp append_assoc)
      (omega (arith, length-append dbname (47 ∷ [])))

-- The part of a file's name behind "dbname/".
abbrev pub base : Bytes → Bytes → Bytes
base dbname name = drop (length dbname + 1) name

-- `ParseFileName` finds the number and the type in the names of log, table, temporary and descriptor files, behind the
-- database's name, for every uint64.
pub parse_file_name-make_file_name :
    (dbname : Bytes) (n : ℕ)
    → IsU64 n
    → (parse_file_name (base dbname (log_file_name dbname n)) ≡ some (n, log_file))
      × (parse_file_name (base dbname (table_file_name dbname n)) ≡ some (n, table_file))
      × (parse_file_name (base dbname (sst_table_file_name dbname n)) ≡ some (n, table_file))
      × (parse_file_name (base dbname (temp_file_name dbname n)) ≡ some (n, temp_file))
      × (parse_file_name (base dbname (descriptor_file_name dbname n)) ≡ some (n, descriptor_file))
unfolding log_file_name table_file_name sst_table_file_name temp_file_name descriptor_file_name
    make_file_name type_of_suffix same IsEnd is_digit
parse_file_name-make_file_name dbname n fits = (
  rw (base_name dbname (padded n ++ log_suffix)) (numbered n log_suffix log_file fits refl refl),
  rw (base_name dbname (padded n ++ ldb_suffix)) (numbered n ldb_suffix table_file fits refl refl),
  rw (base_name dbname (padded n ++ sst_suffix)) (numbered n sst_suffix table_file fits refl refl),
  rw (base_name dbname (padded n ++ temp_suffix)) (numbered n temp_suffix temp_file fits refl refl),
  rw (base_name dbname (manifest_prefix ++ padded n)) (descriptor n fits),
)
