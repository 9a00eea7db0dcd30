-- ===== src/Db/WriteBatch.antt =====
-- db/write_batch.cc: a batch of updates as bytes. `rep_` is an 8-byte sequence number, a 4-byte
-- count, and the records; the model's batch is `rep_`.
pub mod Abstract
pub mod Total
pub mod RoundTrip
use rally_db.Prelude.{
  ℕ, zero, suc, ◌+◌, ◌%◌, ◌^◌, List, [], ◌∷◌, ◌++◌, Option, none, some, ltb, ◌==◌, if◌then◌else◌,
  length, take, drop,
}
use rally_db.Util.Status.{Status, ok, corruption}
use rally_db.Util.Coding.{
  Bytes, encode_fixed32, encode_fixed64, decode_fixed32, decode_fixed64, put_length_prefixed_slice,
  get_length_prefixed_slice,
}
use rally_db.Db.Format.{ValueType, deletion, value, code}

abbrev pub header : ℕ
header = 12

-- `WriteBatch::Clear`: twelve zero bytes.
unfoldable pub clear : Bytes
clear = 0 ∷ 0 ∷ 0 ∷ 0 ∷ 0 ∷ 0 ∷ 0 ∷ 0 ∷ 0 ∷ 0 ∷ 0 ∷ 0 ∷ []

abbrev pub approximate_size : Bytes → ℕ
approximate_size rep = length rep

-- `Count` and `SetCount`: the int is its 32-bit pattern.
unfoldable pub count : Bytes → ℕ
count rep = decode_fixed32 (drop 8 rep)

unfoldable pub set_count : Bytes → ℕ → Bytes
set_count rep n = (take 8 rep ++ encode_fixed32 n) ++ drop 12 rep

unfoldable pub sequence : Bytes → ℕ
sequence rep = decode_fixed64 rep

unfoldable pub set_sequence : Bytes → ℕ → Bytes
set_sequence rep seq = encode_fixed64 seq ++ drop 8 rep

unfoldable pub put : Bytes → (key val : Bytes) → Bytes
put rep key val =
    let counted = set_count rep ((count rep + 1) % 2 ^ 32) in
    put_length_prefixed_slice (put_length_prefixed_slice (counted ++ (code value ∷ [])) key) val

unfoldable pub delete : Bytes → (key : Bytes) → Bytes
delete rep key =
    let counted = set_count rep ((count rep + 1) % 2 ^ 32) in
    put_length_prefixed_slice (counted ++ (code deletion ∷ [])) key

-- `WriteBatchInternal::Append`
unfoldable pub append : Bytes → Bytes → Bytes
append dst src = set_count dst ((count dst + count src) % 2 ^ 32) ++ drop header src

-- `WriteBatchInternal::SetContents`
abbrev pub set_contents : Bytes → Bytes → Bytes
set_contents rep contents = contents

-- The interface `WriteBatch::Handler`, acting on a state of its own.
pub record Handler (S : Type 0) : Type 0 where
  pub on_put : S → Bytes → Bytes → S
  pub on_delete : S → Bytes → S

-- One round of the loop of `Iterate`, for the record after the tag: the input that is left and
-- the handler's state, or the status that the method returns.
pub data Round (S : Type 0) : Type 0 where
  more : Bytes → S → Round S
  stop : Status → Round S

module _ {S : Type 0} (handler : Handler S) where
  unfoldable pub read_put : Bytes → S → Round S
  read_put input s = elim (get_length_prefixed_slice input) [
    | none ↦ stop (corruption "bad WriteBatch Put")
    | some (key, input') ↦ elim (get_length_prefixed_slice input') [
      | none ↦ stop (corruption "bad WriteBatch Put")
      | some (val, rest) ↦ more rest (handler.on_put s key val)
    ]
  ]

  unfoldable pub read_delete : Bytes → S → Round S
  read_delete input s = elim (get_length_prefixed_slice input) [
    | none ↦ stop (corruption "bad WriteBatch Delete")
    | some (key, rest) ↦ more rest (handler.on_delete s key)
  ]

  -- `switch (tag)`
  unfoldable pub read_record : ℕ → Bytes → S → Round S
  read_record tag input s =
      if tag == code value
      then read_put input s
      else if tag == code deletion
      then read_delete input s
      else stop (corruption "unknown WriteBatch tag")

  -- The loop, with the 32-bit pattern of `found`; `none` means that the fuel ran out. A handler keeps what it did before an
  -- error.
  pub iterate_loop : ℕ → Bytes → ℕ → S → Option (Status × ℕ × S)
  iterate_loop fuel [] found s = some (ok, found, s)
  iterate_loop zero (tag ∷ input) found s = none
  iterate_loop (suc fuel) (tag ∷ input) found s = elim (read_record tag input s) [
    | more rest s' ↦ iterate_loop fuel rest ((found + 1) % 2 ^ 32) s'
    | stop status ↦ some (status, (found + 1) % 2 ^ 32, s)
  ]

  -- `WriteBatch::Iterate`: a round takes the tag at least, so the length of the input is enough fuel.
  unfoldable pub iterate : Bytes → S → Option (Status × S)
  iterate rep s =
      if ltb (length rep) header
      then some (corruption "malformed WriteBatch (too small)", s)
      else elim (iterate_loop (length rep) (drop header rep) 0 s) [
        | none ↦ none
        | some (ok, found, s') ↦
            if found == count rep
            then some (ok, s')
            else some (corruption "WriteBatch has wrong count", s')
        | some (status, found, s') ↦ some (status, s')
      ]

-- What `MemTable::Add` is given.
pub record Entry : Type 0 where
  pub seq : ℕ
  pub kind : ValueType
  pub key : Bytes
  pub val : Bytes

-- `MemTableInserter`: `sequence_` and the calls of `mem_->Add` in order.
abbrev pub Inserter : Type 0
Inserter = ℕ × List Entry

abbrev pub inserter_put : Inserter → Bytes → Bytes → Inserter
inserter_put (seq, added) key val =
    ((seq + 1) % 2 ^ 64, added ++ (record { seq = seq; kind = value; key = key; val = val } ∷ []))

abbrev pub inserter_delete : Inserter → Bytes → Inserter
inserter_delete (seq, added) key =
    ((seq + 1) % 2 ^ 64, added ++ (record { seq = seq; kind = deletion; key = key; val = [] } ∷ []))

abbrev pub inserter : Handler Inserter
inserter = record { on_put = inserter_put; on_delete = inserter_delete }

-- `WriteBatchInternal::InsertInto`
unfoldable pub insert_into : Bytes → Option (Status × Inserter)
insert_into rep = iterate inserter rep (sequence rep, [])
