-- ===== src/Db/Format/Order.antt =====
-- The order of internal keys: by user key, and newest first under one user key.
use rally_db.Prelude.{
  ℕ, ◌+◌, ◌*◌, ◌≤◌, ◌<◌, [], ◌≡◌, ap, ◌∙◌, ◌≢◌, ◌⊎◌, inl, inr, arith, ltb, if◌then◌else◌, length,
  length-append,
}
use rally_db.Util.Coding.{Bytes, encode_fixed64, IsU64, put_fixed64}
use rally_db.Util.Coding.Fixed.{length-encode_fixed64}
use rally_db.Util.Comparator.Order.{compare_antisymmetric}
use rally_db.Util.Comparator.{
  Sign, negative, null, positive, Comparator, compare, bytewise_comparator, find_shortest_separator,
  find_short_successor,
}
use rally_db.Util.Comparator.Shorten.{separator_same, separator_bounds}
use rally_db.Db.Format.{
  ValueType, deletion, value, code, max_sequence_number, value_type_for_seek, ParsedInternalKey,
  pack_sequence_and_type, append_internal_key, internal_compare, internal_shortest_separator,
  internal_short_successor, extract_user_key, extract_tag,
}
use rally_db.Db.Format.Parse.{pack_lem, extract_user_key_lem, extract_tag_lem}

abbrev pub packed : ParsedInternalKey → Bytes
packed k = append_internal_key [] k

pub code-le : (t : ValueType) → code t ≤ 1
code-le deletion = omega arith
code-le value = omega arith

pack_fits :
    (seq : ℕ) (t : ValueType) → seq ≤ max_sequence_number → IsU64 (pack_sequence_and_type seq t)
pack_fits seq t h = omega (arith, pack_lem seq t h, code-le t)

-- The parts of a key over any user key.
module _ (key : Bytes) (seq : ℕ) (t : ValueType) (h : seq ≤ max_sequence_number) where
  pub user_part : extract_user_key (put_fixed64 key (pack_sequence_and_type seq t)) ≡ key
  user_part = extract_user_key_lem key _ (pack_fits seq t h)

  tag_part : extract_tag (put_fixed64 key (pack_sequence_and_type seq t)) ≡ seq * 256 + code t
  tag_part = extract_tag_lem key _ (pack_fits seq t h) ∙ pack_lem seq t h

-- Keys with sequence numbers of 56 bits compare by user key, then by falling sequence number, then
-- by falling type, whatever the comparator of the user keys.
pub internal_compare_lem :
    (user : Comparator) (a b : ParsedInternalKey)
    → a.sequence ≤ max_sequence_number
    → b.sequence ≤ max_sequence_number
    → internal_compare user (packed a) (packed b) ≡ elim (user.cmp a.user_key b.user_key) [
      | null ↦
          if ltb b.sequence a.sequence
          then negative
          else if ltb a.sequence b.sequence
          then positive
          else if ltb (code b.type) (code a.type)
          then negative
          else if ltb (code a.type) (code b.type)
          then positive
          else null
      | r ↦ r
    ]
unfolding internal_compare append_internal_key
internal_compare_lem user a b ha hb = ground (
  arith,
  user_part a.user_key a.sequence a.type ha,
  user_part b.user_key b.sequence b.type hb,
  tag_part a.user_key a.sequence a.type ha,
  tag_part b.user_key b.sequence b.type hb,
  code-le a.type,
  code-le b.type,
)

-- The internal order of the bytewise comparator.
abbrev pub order : Bytes → Bytes → Sign
order = internal_compare bytewise_comparator

-- The earliest internal key of a user key.
abbrev earliest : Bytes → ParsedInternalKey
earliest key = record { user_key = key; sequence = max_sequence_number; type = value_type_for_seek }

shortened_size : (a : ParsedInternalKey) → length (packed a) ≡ length a.user_key + 8
unfolding append_internal_key put_fixed64
shortened_size a = omega (
  arith,
  length-append a.user_key (encode_fixed64 (pack_sequence_and_type a.sequence a.type)),
  length-encode_fixed64 (pack_sequence_and_type a.sequence a.type),
)

order_self :
    (a : ParsedInternalKey) → a.sequence ≤ max_sequence_number → order (packed a) (packed a) ≡ null
order_self a ha = ground (
  arith,
  internal_compare_lem bytewise_comparator a a ha ha,
  (compare_antisymmetric a.user_key a.user_key).0.1,
)

-- The user keys of ordered internal keys are ordered or the same.
order_user :
    (a b : ParsedInternalKey)
    → a.sequence ≤ max_sequence_number
    → b.sequence ≤ max_sequence_number
    → order (packed a) (packed b) ≡ negative
    → (compare a.user_key b.user_key ≡ negative) ⊎ (a.user_key ≡ b.user_key)
order_user a b ha hb h = ground (
  arith,
  internal_compare_lem bytewise_comparator a b ha hb,
  (compare_antisymmetric a.user_key b.user_key).0.0,
)

order_of_user :
    (a b : ParsedInternalKey)
    → a.sequence ≤ max_sequence_number
    → b.sequence ≤ max_sequence_number
    → compare a.user_key b.user_key ≡ negative
    → order (packed a) (packed b) ≡ negative
order_of_user a b ha hb h = ground (arith, internal_compare_lem bytewise_comparator a b ha hb)

module _ (a : ParsedInternalKey) (ha : a.sequence ≤ max_sequence_number) where
  -- The key stays, or its user key gets shorter and larger.
  separator_cases :
      (b : ParsedInternalKey)
      → b.sequence ≤ max_sequence_number
      → let tmp = find_shortest_separator a.user_key b.user_key in
        let s = internal_shortest_separator bytewise_comparator (packed a) (packed b) in
        (s ≡ packed a)
        ⊎ ((s ≡ packed (earliest tmp))
            × (length tmp < length a.user_key)
            × (compare a.user_key tmp ≡ negative))
  unfolding internal_shortest_separator append_internal_key
  separator_cases b hb =
      ground (
        arith,
        user_part a.user_key a.sequence a.type ha,
        user_part b.user_key b.sequence b.type hb,
      )

  successor_cases :
      let tmp = find_short_successor a.user_key in
      let s = internal_short_successor bytewise_comparator (packed a) in
      (s ≡ packed a)
      ⊎ ((s ≡ packed (earliest tmp))
          × (length tmp < length a.user_key)
          × (compare a.user_key tmp ≡ negative))
  unfolding internal_short_successor append_internal_key
  successor_cases = ground (arith, user_part a.user_key a.sequence a.type ha)

  -- On internal keys `start < limit` over the bytewise comparator, with valid sequence numbers, `FindShortestSeparator` yields a key that is at
  -- least `start`, below `limit`, and no longer than `start`: its assertions hold.
  pub internal_separator_bounds :
      (b : ParsedInternalKey)
      → b.sequence ≤ max_sequence_number
      → order (packed a) (packed b) ≡ negative
      → let s = internal_shortest_separator bytewise_comparator (packed a) (packed b) in
        (order (packed a) s ≢ positive)
        × (order s (packed b) ≡ negative)
        × (length s ≤ length (packed a))
  internal_separator_bounds b hb h = elim (separator_cases b hb) [
    | inl same ↦ rw same (λ p. cc (order_self a ha), h, omega arith)
    | inr (e, shorter, larger) ↦ elim (order_user a b ha hb h) [
      | inl below ↦ rw e (
        λ p. cc (order_of_user a (earliest tmp) ha (omega arith) larger),
        order_of_user (earliest tmp) b (omega arith) hb
            (separator_bounds a.user_key b.user_key below).1,
        omega (arith, shortened_size a, shortened_size (earliest tmp)),
      )
      | inr same ↦ absurd (ground (arith, separator_same a.user_key, ap length same))
    ]
  ]
    where
      tmp : Bytes
      tmp = find_shortest_separator a.user_key b.user_key

  -- `FindShortSuccessor` yields a key that is at least the given one and no longer.
  pub internal_successor_bounds :
      let s = internal_short_successor bytewise_comparator (packed a) in
      (order (packed a) s ≢ positive) × (length s ≤ length (packed a))
  internal_successor_bounds = elim successor_cases [
    | inl same ↦ rw same (λ p. cc (order_self a ha), omega arith)
    | inr (e, shorter, larger) ↦ rw e (
      λ p.
          cc (order_of_user a (earliest (find_short_successor a.user_key)) ha (omega arith) larger),
      omega (arith, shortened_size a, shortened_size (earliest (find_short_successor a.user_key))),
    )
  ]
