-- ===== src/Db/Log/Physical.antt =====
-- A physical record of the log, written and read.
use rally_db.Prelude.{
  ℕ, suc, ◌*◌, ◌/◌, ◌%◌, ◌^◌, ◌≤◌, ◌<◌, ◌≡◌, ap, sym, ◌∙◌, bit_or, [], ◌∷◌, ◌++◌, some, arith,
  length, length-append, take_of_append, drop_of_append,
}
use rally_db.Prelude.Bits.{bit_or_shifted}
use rally_db.Util.Coding.{Bytes, IsU32, encode_fixed32, decode_fixed32}
use rally_db.Util.Coding.Fixed.{decode_fixed32-encode_fixed32}
use rally_db.Util.Crc.{Crc, checksum, mask, unmask, unmask-mask}
use rally_db.Db.Log.Writer.{record_header}
use rally_db.Db.Log.Reader.{
  SequentialFile, Reader, parse_physical_record, physical_loop, read_physical_record,
}

len_bytes : (n : ℕ) → n < 65536 → bit_or (n % 256) (n / 256 % 256 * 2 ^ 8) ≡ n
len_bytes n h = omega (arith, bit_or_shifted 8 (n % 256) (n / 256 % 256) (omega arith))

module _ (crc : Crc) {F : Type 0} (sequential : SequentialFile F) where
  parse_header :
      (r : Reader F) (result : Bytes) (c0 c1 c2 c3 l0 l1 t : ℕ) (payload rest : Bytes)
      → 1 ≤ t
      → t ≤ 4
      → r.initial_offset ≡ 0
      → bit_or l0 (l1 * 2 ^ 8) ≡ length payload
      → unmask (decode_fixed32 (c0 ∷ c1 ∷ c2 ∷ c3 ∷ l0 ∷ l1 ∷ t ∷ (payload ++ rest)))
        ≡ checksum crc (t ∷ payload)
      → parse_physical_record crc sequential
          (record r { buffer = c0 ∷ c1 ∷ c2 ∷ c3 ∷ l0 ∷ l1 ∷ t ∷ (payload ++ rest) })
          result
        ≡ (t, payload, record r { buffer = rest })
  unfolding parse_physical_record
  parse_header r result c0 c1 c2 c3 l0 l1 t payload rest h1 h4 hi hl hc = ground (
    arith,
    take_of_append payload rest {n = length payload},
    drop_of_append payload rest {n = length payload},
    length-append payload rest,
  )

  loop_parses :
      (fuel : ℕ) (r : Reader F) (result : Bytes)
      → 7 ≤ length r.buffer
      → physical_loop crc sequential (suc fuel) r result
        ≡ some (parse_physical_record crc sequential r result)
  unfolding physical_loop
  loop_parses fuel r result h = ground arith

  -- A record of one of the four types that `EmitPhysicalRecord` wrote at the front of the buffer, with a
  -- payload of less than 2^16 bytes, is read back with its type and taken off the buffer, whether
  -- checksums are verified or not, by a reader that starts at offset 0.
  pub read_physical_record-record_header :
      (r : Reader F) (result : Bytes) (t : ℕ) (payload rest : Bytes)
      → 1 ≤ t
      → t ≤ 4
      → length payload < 65536
      → r.initial_offset ≡ 0
      → read_physical_record crc sequential
          (record r { buffer = record_header crc t payload ++ (payload ++ rest) })
          result
        ≡ some (t, payload, record r { buffer = rest })
  unfolding read_physical_record record_header encode_fixed32
  read_physical_record-record_header r result t payload rest h1 h4 hl hi =
      loop_parses 2 (record r { buffer = record_header crc t payload ++ (payload ++ rest) }) result
        (omega arith)
      ∙ ap some (
          parse_header r result _ _ _ _ _ _ t payload rest h1 h4 hi (len_bytes (length payload) hl)
            (stored
                (crc.extend-IsU32 (crc.extend 0 (t ∷ [])) payload
                  (crc.extend-IsU32 0 (t ∷ []) (omega arith)))
                _
              ∙ sym (crc.extend-append 0 (t ∷ []) payload)))
    where
      stored :
          {c : ℕ}
          → IsU32 c
          → (tail : Bytes) → unmask (decode_fixed32 (encode_fixed32 (mask c) ++ tail)) ≡ c
      stored h tail =
          rw (decode_fixed32-encode_fixed32 _ tail (unmask-mask _ h).1) (unmask-mask _ h).0
