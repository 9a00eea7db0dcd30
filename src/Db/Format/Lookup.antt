-- ===== src/Db/Format/Lookup.antt =====
-- The three views of a `LookupKey`.
use rally_db.Prelude.{
  ℕ, ◌+◌, ◌%◌, ◌^◌, [], ◌≡◌, refl, arith, length, length-append, take_of_append, drop_of_append,
  append_assoc,
}
use rally_db.Util.Coding.{
  Bytes, encode_varint32, put_varint32, put_fixed64, encode_fixed64, put_length_prefixed_slice,
}
use rally_db.Util.Coding.Fixed.{length-encode_fixed64}
use rally_db.Db.Format.{
  value_type_for_seek, append_internal_key, pack_sequence_and_type, lookup_key, memtable_key,
  internal_key, user_key,
}

module _ (user : Bytes) (s : ℕ) where
  -- The internal key that is sought: the user key at the snapshot `s`.
  abbrev pub sought : Bytes
  sought =
      append_internal_key [] (record { user_key = user; sequence = s; type = value_type_for_seek })

  length-sought : length sought ≡ length user + 8
  unfolding append_internal_key put_fixed64
  length-sought = omega (
    arith,
    length-append user (encode_fixed64 (pack_sequence_and_type s value_type_for_seek)),
    length-encode_fixed64 (pack_sequence_and_type s value_type_for_seek),
  )

  -- A `LookupKey` holds the internal key of the user key at the snapshot, preceded by its length as
  -- a memtable entry begins, and the user key is its front.
  pub lookup_key_views :
      (memtable_key (lookup_key user s) ≡ put_length_prefixed_slice [] sought)
      × (internal_key (lookup_key user s) ≡ sought)
      × (user_key (lookup_key user s) ≡ user)
  lookup_key_views = (whole, inner, front)
    where
      inner : internal_key (lookup_key user s) ≡ sought
      inner =
          unfold lookup_key append_internal_key put_fixed64 in
          rw append_assoc (drop_of_append (encode_varint32 ((length user + 8) % 2 ^ 32)) _ refl)

      front : user_key (lookup_key user s) ≡ user
      front =
          rw (inner, length-sought)
            (unfold append_internal_key put_fixed64 in take_of_append user _ (omega arith))

      whole : memtable_key (lookup_key user s) ≡ put_length_prefixed_slice [] sought
      whole =
          unfold put_length_prefixed_slice in
          rw length-sought
            (unfold lookup_key put_varint32 append_internal_key put_fixed64 in rw append_assoc)
