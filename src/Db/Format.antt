-- ===== src/Db/Format.antt =====
-- db/dbformat.h and db/dbformat.cc: internal keys. An internal key is the user key followed by eight
-- bytes that pack a sequence number and a value type.
pub mod Parse
pub mod Order
pub mod Lookup
pub mod Total
use rally_db.Prelude.{
  ℕ, ◌+◌, ◌-◌, ◌*◌, ◌/◌, ◌%◌, ◌^◌, ◌≤◌, ◌<◌, bit_and, bit_or, List, [], ◌∷◌, ◌++◌, Bool, true,
  false, ◌&&◌, Option, none, some, ltb, leb, if◌then◌else◌, length, take, drop,
}
use rally_db.Util.Coding.{Bytes, encode_fixed64, decode_fixed64, put_fixed64, encode_varint32}
use rally_db.Util.Comparator.{Sign, negative, null, positive, Comparator}

-- `enum ValueType`
pub data ValueType : Type 0 where
  deletion value : ValueType

-- The numbers of the enumeration, which stand on disk.
abbrev pub code : ValueType → ℕ
code deletion = 0
code value = 1

abbrev pub value_type_for_seek : ValueType
value_type_for_seek = value

abbrev pub max_sequence_number : ℕ
max_sequence_number = 2 ^ 56 - 1

pub record ParsedInternalKey : Type 0 where
  pub user_key : Bytes
  pub sequence : ℕ
  pub type : ValueType

-- `(seq << 8) | t`, in 64 bits.
unfoldable pub pack_sequence_and_type : ℕ → ValueType → ℕ
pack_sequence_and_type seq t = bit_or (seq * 2 ^ 8 % 2 ^ 64) (code t)

unfoldable pub append_internal_key : Bytes → ParsedInternalKey → Bytes
append_internal_key result key =
    put_fixed64 (result ++ key.user_key) (pack_sequence_and_type key.sequence key.type)

abbrev pub internal_key_encoding_length : ParsedInternalKey → ℕ
internal_key_encoding_length key = length key.user_key + 8

-- `static_cast<ValueType>(c)` with the test `c <= kTypeValue`.
abbrev type_of_code : ℕ → Option ValueType
type_of_code c = if leb c 1 then some (if leb 1 c then value else deletion) else none

-- `false` is `none`: what is then stored in `*result` is undefined.
unfoldable pub parse_internal_key : Bytes → Option ParsedInternalKey
parse_internal_key internal_key =
    let n = length internal_key in
    let num = decode_fixed64 (drop (n - 8) internal_key) in
    if ltb n 8 then none else elim (type_of_code (bit_and num 255 % 256)) [
      | none ↦ none
      | some t ↦
          some (record { user_key = take (n - 8) internal_key; sequence = num / 2 ^ 8; type = t })
    ]

-- REQUIRES: at least 8 bytes.
unfoldable pub extract_user_key : Bytes → Bytes
extract_user_key internal_key = take (length internal_key - 8) internal_key

-- `DecodeFixed64(key.data() + key.size() - 8)`
unfoldable pub extract_tag : Bytes → ℕ
extract_tag internal_key = decode_fixed64 (drop (length internal_key - 8) internal_key)

-- `InternalKeyComparator`, over the comparator of the user keys.
module _ (user : Comparator) where
  unfoldable pub internal_compare : Bytes → Bytes → Sign
  internal_compare akey bkey = elim (user.cmp (extract_user_key akey) (extract_user_key bkey)) [
    | null ↦
        if ltb (extract_tag bkey) (extract_tag akey)
        then negative
        else if ltb (extract_tag akey) (extract_tag bkey)
        then positive
        else null
    | r ↦ r
  ]

  -- `tmp.size() < user_key.size() && user_comparator_->Compare(user_key, tmp) < 0`
  abbrev shorter_and_larger : Bytes → Bytes → Bool
  shorter_and_larger user_key tmp =
      ltb (length tmp) (length user_key)
      && elim (user.cmp user_key tmp) [ negative ↦ true | _ ↦ false ]

  unfoldable pub internal_shortest_separator : Bytes → Bytes → Bytes
  internal_shortest_separator start limit =
      let user_start = extract_user_key start in
      let tmp = user.shortest_separator user_start (extract_user_key limit) in
      if shorter_and_larger user_start tmp
      then put_fixed64 tmp (pack_sequence_and_type max_sequence_number value_type_for_seek)
      else start

  unfoldable pub internal_short_successor : Bytes → Bytes
  internal_short_successor key =
      let user_key = extract_user_key key in
      let tmp = user.short_successor user_key in
      if shorter_and_larger user_key tmp
      then put_fixed64 tmp (pack_sequence_and_type max_sequence_number value_type_for_seek)
      else key

-- `LookupKey`: the buffer from `start_` to `end_`, and where `kstart_` stands in it.
pub record LookupKey : Type 0 where
  pub space : Bytes
  pub kstart : ℕ

unfoldable pub lookup_key : Bytes → ℕ → LookupKey
lookup_key user_key s =
    let prefix = encode_varint32 ((length user_key + 8) % 2 ^ 32) in
    record {
      space = (prefix ++ user_key) ++ encode_fixed64 (pack_sequence_and_type s value_type_for_seek);
      kstart = length prefix;
    }

abbrev pub memtable_key : LookupKey → Bytes
memtable_key k = k.space

abbrev pub internal_key : LookupKey → Bytes
internal_key k = drop k.kstart k.space

abbrev pub user_key : LookupKey → Bytes
user_key k = take (length (internal_key k) - 8) (internal_key k)
