-- ===== src/Db/Log/Rounds.antt =====
-- The loop of `ReadPhysicalRecord` ends.
use rally_db.Prelude.{
  ℕ, suc, ◌≡◌, ◌≢◌, Bool, true, false, none, arith, ltb, length, Bool-cases, inl, inr, ◌⊎◌, ◌||◌,
  ◌+◌, ◌%◌, ◌^◌, refl,
}
use rally_db.Util.Status.{is_ok}
use rally_db.Util.Coding.{Bytes}
use rally_db.Util.Crc.{Crc}
use rally_db.Db.Log.Reader.{SequentialFile, Reader, physical_loop, read_physical_record}

module _ (crc : Crc) {F : Type 0} (sequential : SequentialFile F) where
  -- A round that does not read.
  last_round :
      (fuel : ℕ) (r : Reader F) (result : Bytes)
      → ltb (length r.buffer) 7 ≡ false
      → physical_loop crc sequential (suc fuel) r result ≢ none
  unfolding physical_loop
  last_round fuel r result h = rw (physical_loop, h) (λ e. cc)

  eof_round :
      (fuel : ℕ) (r : Reader F) (result : Bytes)
      → r.at_eof ≡ true
      → physical_loop crc sequential (suc fuel) r result ≢ none
  unfolding physical_loop
  eof_round fuel r result h = elim (Bool-cases (ltb (length r.buffer) 7)) [
    | inl small ↦ rw (physical_loop, small, h) (λ e. cc)
    | inr large ↦ last_round fuel r result large
  ]

  -- The reader after a round that reads.
  abbrev filled : Reader F → Bool → Reader F
  filled r short =
      let (status, bytes, file) = sequential.read r.file 32768 in
      record r {
        file = file;
        buffer = bytes;
        at_eof = short || r.at_eof;
        end_of_buffer_offset = (r.end_of_buffer_offset + length bytes) % 2 ^ 64;
      }

  abbrev is_short : Reader F → Bool
  is_short r = ltb (length (sequential.read r.file 32768).1) 32768

  -- A round ends the loop, or reads.
  round_cases :
      (fuel : ℕ) (r : Reader F) (result : Bytes)
      → (physical_loop crc sequential (suc fuel) r result ≢ none)
        ⊎ (physical_loop crc sequential (suc fuel) r result
            ≡ physical_loop crc sequential fuel (filled r (is_short r)) result)
  unfolding physical_loop
  round_cases fuel r result = elim (Bool-cases (ltb (length r.buffer) 7)) [
    | inr large ↦ inl (last_round fuel r result large)
    | inl small ↦ elim (Bool-cases r.at_eof) [
      | inl ended ↦ inl (eof_round fuel r result ended)
      | inr on ↦ elim (Bool-cases (is_ok (sequential.read r.file 32768).0)) [
        | inr bad ↦ inl (rw (physical_loop, small, on, bad) (λ e. cc))
        | inl good ↦ elim (Bool-cases (is_short r)) [
          | inl short ↦ inr (rw (physical_loop, small, on, good, short) refl)
          | inr full ↦ inr (rw (physical_loop, small, on, good, full) refl)
        ]
      ]
    ]
  ]

  -- `ReadPhysicalRecord` gives a type, whatever the buffer holds and the file answers: its
  -- loop ends.
  pub read_physical_record-ne-none :
      (r : Reader F) (result : Bytes) → read_physical_record crc sequential r result ≢ none
  unfolding read_physical_record
  read_physical_record-ne-none r result = elim (round_cases 2 r result) [
    | inl ends ↦ ends
    | inr reads ↦ elim (Bool-cases (is_short r)) [
      | inl short ↦ rw (reads, short) (eof_round 1 (filled r true) result refl)
      | inr full ↦ rw reads (last_round 1 (filled r (is_short r)) result (ground arith))
    ]
  ]
