-- ===== src/Db/WriteBatch/Abstract.antt =====
-- A batch as its sequence number and the list of its updates: the methods that write a batch, seen
-- through its bytes.
use rally_db.Prelude.{
  ℕ, ◌+◌, ◌%◌, ◌^◌, ◌<◌, List, [], ◌∷◌, ◌++◌, ◌≡◌, refl, ◌∙◌, arith, length, length-append, drop,
  append_assoc, append-nil,
}
use rally_db.Util.Coding.{
  Bytes, IsU32, IsU64, encode_fixed32, encode_fixed64, put_length_prefixed_slice, put_varint32,
}
use rally_db.Util.Coding.Fixed.{decode_fixed32-encode_fixed32, decode_fixed64-encode_fixed64}
use rally_db.Db.Format.{deletion, value, code}
use rally_db.Db.WriteBatch.{count, set_count, sequence, set_sequence, put, delete, append}
use native.Mathlib.Nat.{mod-eq_of_lt}

pub data Update : Type 0 where
  puts : Bytes → Bytes → Update
  deletes : Bytes → Update

-- The record of an update, and the records of a list of them.
unfoldable pub record_of : Update → Bytes
record_of (puts key val) =
    code value ∷ (put_length_prefixed_slice [] key ++ put_length_prefixed_slice [] val)
record_of (deletes key) = code deletion ∷ put_length_prefixed_slice [] key

unfoldable pub records : List Update → Bytes
records [] = []
records (u ∷ us) = record_of u ++ records us

pub records-append : (us vs : List Update) → records (us ++ vs) ≡ records us ++ records vs
unfolding records
records-append [] vs = refl
records-append (u ∷ us) vs = rw (records-append us vs, append_assoc)

-- A batch with this header and these records.
unfoldable pub layout : (seq n : ℕ) → Bytes → Bytes
layout seq n body = encode_fixed64 seq ++ (encode_fixed32 n ++ body)

-- The batch that stands for a sequence number and a list of updates.
unfoldable pub batch : ℕ → List Update → Bytes
batch seq us = layout seq (length us) (records us)

module _ (seq n : ℕ) (body : Bytes) where
  pub count-layout : IsU32 n → count (layout seq n body) ≡ n
  unfolding count layout encode_fixed64
  count-layout h = decode_fixed32-encode_fixed32 n body h

  pub set_count-layout : (m : ℕ) → set_count (layout seq n body) m ≡ layout seq m body
  unfolding set_count layout encode_fixed64 encode_fixed32
  set_count-layout m = refl

  pub sequence-layout : IsU64 seq → sequence (layout seq n body) ≡ seq
  unfolding sequence layout
  sequence-layout h = decode_fixed64-encode_fixed64 seq _ h

  pub set_sequence-layout : (s : ℕ) → set_sequence (layout seq n body) s ≡ layout s n body
  unfolding set_sequence layout encode_fixed64
  set_sequence-layout s = refl

  layout-append : (more : Bytes) → layout seq n body ++ more ≡ layout seq n (body ++ more)
  unfolding layout encode_fixed64 encode_fixed32
  layout-append more = refl

  pub drop-layout : drop 12 (layout seq n body) ≡ body
  unfolding layout encode_fixed64 encode_fixed32
  drop-layout = refl

pub length-layout : (seq n : ℕ) (body : Bytes) → length (layout seq n body) ≡ length body + 12
unfolding layout encode_fixed64 encode_fixed32
length-layout seq n body = omega arith

prefixed-append :
    (dst s : Bytes) → put_length_prefixed_slice dst s ≡ dst ++ put_length_prefixed_slice [] s
unfolding put_length_prefixed_slice put_varint32
prefixed-append dst s = rw append_assoc

module _ (seq : ℕ) (us : List Update) (fits : length us + 1 < 2 ^ 32) where
  add_record :
      (u : Update)
      → layout seq (length us + 1) (records us ++ record_of u) ≡ batch seq (us ++ (u ∷ []))
  unfolding batch records
  add_record u = rw (records-append us (u ∷ []), length-append us (u ∷ []), append-nil)

  counted :
      set_count (batch seq us) ((count (batch seq us) + 1) % 2 ^ 32)
      ≡ layout seq (length us + 1) (records us)
  unfolding batch
  counted =
      rw (count-layout seq (length us) (records us) (omega arith), mod-eq_of_lt fits)
        (set_count-layout seq (length us) (records us) (length us + 1))

  -- On the batch of a sequence number and a list of updates, `Put` gives the batch with the new pair
  -- behind them, as long as the count fits 32 bits.
  pub put-batch :
      (key val : Bytes) → put (batch seq us) key val ≡ batch seq (us ++ (puts key val ∷ []))
  unfolding put record_of
  put-batch key val =
      rw
        (
          counted,
          prefixed-append (put_length_prefixed_slice (c ++ (1 ∷ [])) key) val,
          prefixed-append (c ++ (1 ∷ [])) key,
          append_assoc (c ++ (1 ∷ [])),
          append_assoc c,
        )
        (layout-append seq _ (records us) (record_of (puts key val)) ∙ add_record (puts key val))
    where
      c : Bytes
      c = layout seq (length us + 1) (records us)

  -- On the batch of a sequence number and a list of updates, `Delete` gives the batch with the deletion
  -- behind them, as long as the count fits 32 bits.
  pub delete-batch :
      (key : Bytes) → delete (batch seq us) key ≡ batch seq (us ++ (deletes key ∷ []))
  unfolding delete record_of
  delete-batch key =
      rw (counted, prefixed-append (c ++ (0 ∷ [])) key, append_assoc c)
        (layout-append seq _ (records us) (record_of (deletes key)) ∙ add_record (deletes key))
    where
      c : Bytes
      c = layout seq (length us + 1) (records us)

-- `Append` puts the updates of one batch behind those of another, and keeps the latter's sequence
-- number.
pub append-batch :
    (seq seq' : ℕ) (us vs : List Update)
    → length us + length vs < 2 ^ 32
    → append (batch seq us) (batch seq' vs) ≡ batch seq (us ++ vs)
unfolding append batch
append-batch seq seq' us vs fits = rw (
  count-layout seq (length us) (records us) (omega arith),
  count-layout seq' (length vs) (records vs) (omega arith),
  mod-eq_of_lt fits,
  set_count-layout seq (length us) (records us) (length us + length vs),
  drop-layout seq' (length vs) (records vs),
  layout-append seq (length us + length vs) (records us) (records vs),
  records-append us vs,
  length-append us vs,
)
