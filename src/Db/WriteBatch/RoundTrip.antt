-- ===== src/Db/WriteBatch/RoundTrip.antt =====
-- `Iterate` and `InsertInto` replay what the writing methods recorded.
use rally_db.Prelude.{
  ℕ, zero, suc, ◌+◌, ◌%◌, ◌^◌, ◌≤◌, ◌<◌, List, [], ◌∷◌, ◌++◌, ◌≡◌, ◌∙◌, some, arith, length,
  length-append, append_assoc, append-nil, All, ◌==◌, if◌then◌else◌,
}
use rally_db.Util.Status.{ok, corruption}
use rally_db.Util.Coding.{Bytes, IsU32, put_length_prefixed_slice}
use rally_db.Util.Coding.RoundTrip.{get-put_length_prefixed_slice}
use rally_db.Db.Format.{deletion, value}
use rally_db.Db.WriteBatch.{
  Handler, read_put, read_delete, read_record, iterate_loop, iterate, Entry, inserter, insert_into,
}
use rally_db.Db.WriteBatch.Abstract.{
  Update, puts, deletes, record_of, records, layout, batch, length-layout, count-layout,
  drop-layout, sequence-layout,
}
use mathlib.Core.List.{foldl}
use native.Mathlib.Nat.{mod-eq_of_lt}

-- Keys and values of less than 2^32 bytes.
abbrev pub Fits : Update → Type 0
Fits (puts key val) = IsU32 (length key) × IsU32 (length val)
Fits (deletes key) = IsU32 (length key)

records_longer : (u : Update) (us : List Update) → length (records us) < length (records (u ∷ us))
unfolding records record_of
records_longer (puts key val) us =
    omega (arith, length-append (record_of (puts key val)) (records us))
records_longer (deletes key) us =
    omega (arith, length-append (record_of (deletes key)) (records us))

module _ {S : Type 0} (handler : Handler S) where
  -- What the handler does for an update.
  abbrev pub apply : S → Update → S
  apply s (puts key val) = handler.on_put s key val
  apply s (deletes key) = handler.on_delete s key

  one_round :
      (u : Update) (rest : Bytes) (fuel found : ℕ) (s : S)
      → Fits u
      → iterate_loop handler (suc fuel) (record_of u ++ rest) found s
        ≡ iterate_loop handler fuel rest ((found + 1) % 2 ^ 32) (apply s u)
  unfolding iterate_loop record_of read_record read_put read_delete
  one_round (puts key val) rest fuel found s fits = rw append_assoc (
      ground (
        arith,
        get-put_length_prefixed_slice key (put_length_prefixed_slice [] val ++ rest) fits.0,
        get-put_length_prefixed_slice val rest fits.1,
      ))
  one_round (deletes key) rest fuel found s fits =
      ground (arith, get-put_length_prefixed_slice key rest fits)

  each_round :
      (us : List Update) (fuel found : ℕ) (s : S)
      → All Fits us
      → length (records us) ≤ fuel
      → found < 2 ^ 32
      → iterate_loop handler fuel (records us) found s
        ≡ some (ok, (found + length us) % 2 ^ 32, foldl apply s us)
  unfolding records
  each_round [] fuel found s fits h small = unfold iterate_loop in ground arith
  each_round (u ∷ us) zero found s fits h small = absurd (omega (arith, records_longer u us))
  each_round (u ∷ us) (suc fuel) found s fits h small =
      one_round u (records us) fuel found s fits.0
      ∙ each_round us fuel ((found + 1) % 2 ^ 32) (apply s u) fits.1
          (omega (arith, records_longer u us)) (omega arith)
      ∙ ground arith

  -- A batch laid out with the records of `us` is replayed in order, and then judged by its count.
  pub iterate-layout :
      (seq n : ℕ) (us : List Update) (s : S)
      → All Fits us
      → IsU32 n
      → iterate handler (layout seq n (records us)) s
        ≡ some (
          if length us % 2 ^ 32 == n then ok else corruption "WriteBatch has wrong count",
          foldl apply s us,
        )
  unfolding iterate
  iterate-layout seq n us s fits h = ground (
    arith,
    drop-layout seq n (records us),
    count-layout seq n (records us) h,
    length-layout seq n (records us),
    each_round us (length (layout seq n (records us))) 0 s fits,
  )

-- The updates under consecutive sequence numbers.
pub numbered : ℕ → List Update → List Entry
numbered seq [] = []
numbered seq (puts key val ∷ us) =
    record { seq = seq; kind = value; key = key; val = val } ∷ numbered (seq + 1) us
numbered seq (deletes key ∷ us) =
    record { seq = seq; kind = deletion; key = key; val = [] } ∷ numbered (seq + 1) us

inserted :
    (us : List Update) (seq : ℕ) (added : List Entry)
    → seq + length us < 2 ^ 64
    → foldl (apply inserter) (seq, added) us ≡ (seq + length us, added ++ numbered seq us)
unfolding numbered
inserted [] seq added h = ground (arith, append-nil added)
inserted (puts key val ∷ us) seq added h =
    rw (mod-eq_of_lt {n = seq + 1} {m = 2 ^ 64} (omega arith))
      (inserted us (seq + 1) _ (omega arith) ∙ rw append_assoc (ground arith))
inserted (deletes key ∷ us) seq added h =
    rw (mod-eq_of_lt {n = seq + 1} {m = 2 ^ 64} (omega arith))
      (inserted us (seq + 1) _ (omega arith) ∙ rw append_assoc (ground arith))

-- `InsertInto` adds every update of a batch to the memtable, in order, under the batch's sequence
-- number and those that follow it. The keys and values are shorter than 2^32, the updates fewer, and
-- the sequence numbers do not leave 64 bits.
pub insert_into-batch :
    (seq : ℕ) (us : List Update)
    → All Fits us
    → length us < 2 ^ 32
    → seq + length us < 2 ^ 64
    → insert_into (batch seq us) ≡ some (ok, (seq + length us, numbered seq us))
unfolding insert_into batch
insert_into-batch seq us fits few h = ground (
  arith,
  iterate-layout inserter seq (length us) us (seq, []) fits few,
  sequence-layout seq (length us) (records us),
  inserted us seq [] h,
)
