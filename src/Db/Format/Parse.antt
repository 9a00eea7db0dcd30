-- ===== src/Db/Format/Parse.antt =====
-- An internal key is parsed back to what was packed into it.
use rally_db.Prelude.{
  ℕ, ◌+◌, ◌-◌, ◌*◌, ◌/◌, ◌%◌, ◌^◌, ◌≤◌, [], ◌≡◌, some, arith, All, All-drop, take-append-drop,
  length-drop, length, length-append, drop, take_of_append, drop_of_append, append-nil,
}
use rally_db.Prelude.Bits.{shifted-bit_or, and_255}
use rally_db.Util.Coding.{IsByte, Bytes, IsU64, encode_fixed64, put_fixed64}
use rally_db.Util.Coding.Fixed.{
  encode_fixed64-decode_fixed64, decode_fixed64-IsU64, decode_fixed64-encode_fixed64,
  length-encode_fixed64,
}
use rally_db.Db.Format.{
  ValueType, deletion, value, code, max_sequence_number, ParsedInternalKey, pack_sequence_and_type,
  append_internal_key, parse_internal_key, extract_user_key, extract_tag,
}

-- On a sequence number of 56 bits nothing is lost.
pub pack_lem :
    (seq : ℕ) (t : ValueType)
    → seq ≤ max_sequence_number
    → pack_sequence_and_type seq t ≡ seq * 256 + code t
unfolding pack_sequence_and_type
pack_lem seq deletion h = ground (arith, shifted-bit_or 8 seq 0)
pack_lem seq value h = ground (arith, shifted-bit_or 8 seq 1)

module _ (key : Bytes) (tag : ℕ) (fits : IsU64 tag) where
  length-tagged : length (put_fixed64 key tag) ≡ length key + 8
  unfolding put_fixed64
  length-tagged = omega (arith, length-append key (encode_fixed64 tag), length-encode_fixed64 tag)

  pub extract_user_key_lem : extract_user_key (put_fixed64 key tag) ≡ key
  unfolding extract_user_key
  extract_user_key_lem = rw length-tagged (unfold put_fixed64 in take_of_append key _ (omega arith))

  pub extract_tag_lem : extract_tag (put_fixed64 key tag) ≡ tag
  unfolding extract_tag
  extract_tag_lem = rw length-tagged (
      unfold put_fixed64 in
      rw (drop_of_append key (encode_fixed64 tag) {n = length key + 8 - 8} (omega arith))
        (rw append-nil at (decode_fixed64-encode_fixed64 tag [] fits)))

parse_tagged :
    (key : Bytes) (seq : ℕ) (t : ValueType)
    → seq ≤ max_sequence_number
    → parse_internal_key (put_fixed64 key (seq * 256 + code t))
      ≡ some (record { user_key = key; sequence = seq; type = t })
unfolding parse_internal_key extract_user_key extract_tag
parse_tagged key seq deletion h = ground (
  arith,
  length-tagged key (seq * 256 + 0),
  extract_user_key_lem key (seq * 256 + 0),
  extract_tag_lem key (seq * 256 + 0),
  and_255 (seq * 256 + 0),
)
parse_tagged key seq value h = ground (
  arith,
  length-tagged key (seq * 256 + 1),
  extract_user_key_lem key (seq * 256 + 1),
  extract_tag_lem key (seq * 256 + 1),
  and_255 (seq * 256 + 1),
)

-- A key whose sequence number fits 56 bits is parsed back from what `AppendInternalKey` wrote.
pub parse-append_internal_key :
    (k : ParsedInternalKey)
    → k.sequence ≤ max_sequence_number
    → parse_internal_key (append_internal_key [] k) ≡ some k
unfolding append_internal_key
parse-append_internal_key k h =
    rw (pack_lem k.sequence k.type h) (parse_tagged k.user_key k.sequence k.type h)

append_fields :
    (ik : Bytes) (t : ValueType)
    → All IsByte ik
    → 8 ≤ length ik
    → extract_tag ik % 256 ≡ code t
    → put_fixed64 (extract_user_key ik) (pack_sequence_and_type (extract_tag ik / 2 ^ 8) t) ≡ ik
append_fields ik t bytes long low =
    rw (pack_lem (extract_tag ik / 2 ^ 8) t (omega (arith, fits)), whole)
      (unfold put_fixed64 extract_user_key extract_tag in
        rw (encode_fixed64-decode_fixed64 last eight (All-drop IsByte (length ik - 8) ik bytes))
          (take-append-drop (length ik - 8) ik))
  where
    last : Bytes
    last = drop (length ik - 8) ik

    eight : length last ≡ 8
    eight = omega (arith, length-drop (length ik - 8) ik)

    fits : IsU64 (extract_tag ik)
    fits =
        unfold extract_tag in
        decode_fixed64-IsU64 last eight (All-drop IsByte (length ik - 8) ik bytes)

    whole : extract_tag ik / 2 ^ 8 * 256 + code t ≡ extract_tag ik
    whole = omega arith

-- Only such keys are parsed: what `ParseInternalKey` accepts is, byte for byte, what
-- `AppendInternalKey` writes for its result.
pub append-parse_internal_key :
    (ik : Bytes) (k : ParsedInternalKey)
    → All IsByte ik
    → parse_internal_key ik ≡ some k
    → append_internal_key [] k ≡ ik
unfolding append_internal_key parse_internal_key extract_tag extract_user_key
append-parse_internal_key ik k bytes h =
    ground (
      arith,
      and_255 (extract_tag ik),
      append_fields ik value bytes,
      append_fields ik deletion bytes,
    )
