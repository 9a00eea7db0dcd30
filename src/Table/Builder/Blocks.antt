-- ===== src/Table/Builder/Blocks.antt =====
-- Blocks that `TableBuilder` appended to a file, read by `ReadBlock` of table/format.cc.
use rally_db.Prelude.{
  ℕ, ◌+◌, ◌-◌, ◌/◌, ◌≡◌, ◌≢◌, ◌∙◌, refl, sym, [], ◌∷◌, ◌++◌, Bool, true, false, ◌&&◌, some, ltb,
  ◌==◌, inl, inr, arith, length, length-append, get_or, take, drop, take_of_append, drop_of_append,
  drop_behind, append_assoc, append-nil, Bool-cases, Option-cases, if◌then◌else◌,
}
use rally_db.Util.Status.{Status, ok, corruption}
use rally_db.Util.Coding.{Bytes, IsU32, encode_fixed32, decode_fixed32}
use rally_db.Util.Coding.Fixed.{decode_fixed32-encode_fixed32, length-encode_fixed32}
use rally_db.Util.Crc.{Crc, checksum, mask, unmask, unmask-mask}
use rally_db.Table.Format.{
  CompressionType, no_compression, snappy, zstd, type_code, Compressors, uncompressed, read_block,
}
use rally_db.Table.Block.Builder.{BlockBuilder, finish}
use rally_db.Table.Builder.{
  Rep, trailer, block_contents, append_block, write_raw_block, write_block,
}
use rally_db.Db.Log.Writer.{WritableFile}

-- A file that takes every write, and its `Read`.
abbrev pub intact : WritableFile Bytes
intact = record { append = λ f x. (ok, f ++ x); flush = λ f. (ok, f) }

abbrev pub read_at : Bytes → ℕ → ℕ → Status × Bytes
read_at file offset n = (ok, take n (drop offset file))

module _ (crc : Crc) (lib : Compressors) where
  -- What `ReadBlock` makes of the stored bytes, by their type.
  unfoldable pub unpack : CompressionType → Bytes → Status × Bytes
  unpack no_compression c = (ok, c)
  unpack snappy c =
      uncompressed lib snappy (corruption "corrupted snappy compressed block length")
        (corruption "corrupted snappy compressed block contents") c
  unpack zstd c =
      uncompressed lib zstd (corruption "corrupted zstd compressed block length")
        (corruption "corrupted zstd compressed block contents") c

  pub length-trailer : (c : Bytes) (t : CompressionType) → length (trailer crc c t) ≡ 5
  unfolding trailer
  length-trailer c t =
      omega (arith, length-encode_fixed32 (mask (crc.extend (checksum crc c) (type_code t ∷ []))))

  nth_behind : (c : Bytes) (x : ℕ) (rest : Bytes) → get_or (c ++ (x ∷ rest)) (length c) 0 ≡ x
  nth_behind [] x rest = refl
  nth_behind (y ∷ c) x rest = nth_behind c x rest

  stored_sum :
      (c : Bytes) (t : CompressionType)
      → unmask (mask (crc.extend (checksum crc c) (type_code t ∷ [])))
        ≡ checksum crc (c ++ (type_code t ∷ []))
  stored_sum c t =
      (unmask-mask _ (
        crc.extend-IsU32 (checksum crc c) (type_code t ∷ [])
          (crc.extend-IsU32 0 c (omega arith)))).0
      ∙ sym (crc.extend-append 0 c (type_code t ∷ []))

  masked_sum :
      (c : Bytes) (t : CompressionType)
      → IsU32 (mask (crc.extend (checksum crc c) (type_code t ∷ [])))
  masked_sum c t =
      (unmask-mask _ (
        crc.extend-IsU32 (checksum crc c) (type_code t ∷ [])
          (crc.extend-IsU32 0 c (omega arith)))).1

  same_number : (n : ℕ) → (n == n) ≡ true
  same_number n = ground arith

  and_false : (b : Bool) → (b && false) ≡ false
  and_false true = refl
  and_false false = refl

  by_type :
      (t : CompressionType) (c : Bytes)
      → (if type_code t == 0
          then (ok, c)
          else if type_code t == 1
          then unpack snappy c
          else if type_code t == 2
          then unpack zstd c
          else (corruption "bad block type", []))
        ≡ unpack t c
  unfolding unpack
  by_type no_compression c = refl
  by_type snappy c = refl
  by_type zstd c = refl

  -- Stored bytes with their trailer.
  pub read_block-trailer :
      (front c : Bytes) (t : CompressionType) (rest : Bytes) (verify : Bool) (offset size : ℕ)
      → offset ≡ length front
      → size ≡ length c
      → read_block crc lib
          (read_at (front ++ (c ++ (trailer crc c t ++ rest))))
          verify
          (record { offset = offset; size = size })
        ≡ unpack t c
  unfolding read_block trailer unpack
  read_block-trailer front c t rest verify offset size at long =
      let n : ℕ = length c in
      let sum : Bytes = encode_fixed32 (mask (crc.extend (checksum crc c) (type_code t ∷ []))) in
      let all : Bytes = c ++ (type_code t ∷ sum) in
      let size_is = length-append c (type_code t ∷ sum) in
      let four = length-encode_fixed32 (mask (crc.extend (checksum crc c) (type_code t ∷ []))) in
      let found : take (n + 5) (drop (length front) (front ++ (c ++ (trailer crc c t ++ rest))))
          ≡ all =
        rw
          (
            drop_of_append front (c ++ (trailer crc c t ++ rest)) {n = length front} refl,
            ← append_assoc,
          )
          (take_of_append all rest {n = n + 5} (omega arith)) in
      let whole : (length all == n + 5) ≡ true = ground arith in
      let kept : take n all ≡ c = take_of_append c (type_code t ∷ sum) refl in
      let type : get_or all n 0 ≡ type_code t = nth_behind c (type_code t) sum in
      let split : all ≡ (c ++ (type_code t ∷ [])) ++ sum = simp append_assoc in
      let more : n + 1 ≡ length (c ++ (type_code t ∷ [])) =
        omega (arith, length-append c (type_code t ∷ [])) in
      let front_part : take (n + 1) all ≡ c ++ (type_code t ∷ []) =
        rw split (take_of_append (c ++ (type_code t ∷ [])) sum more) in
      let sum_part : drop (n + 1) all ≡ sum =
        drop_behind (c ++ (type_code t ∷ [])) sum all split more in
      let read_sum : decode_fixed32 sum ≡ mask (crc.extend (checksum crc c) (type_code t ∷ [])) =
        rw (← append-nil sum) (decode_fixed32-encode_fixed32 _ [] (masked_sum c t)) in
      let matches : (checksum crc (take (n + 1) all) == unmask (decode_fixed32 (drop (n + 1) all)))
          ≡ true =
        rw (front_part, sum_part, read_sum, stored_sum c t)
          (same_number (checksum crc (c ++ (type_code t ∷ [])))) in
      rw (read_block, at, long, found, whole, matches, and_false verify, type, kept) (by_type t c)

  -- A compressed block that was chosen is uncompressed to the raw one.
  uncompressed-compress :
      (t : CompressionType) (lengths contents : Status) (raw c : Bytes)
      → raw ≢ []
      → lib.compress t raw ≡ some c
      → uncompressed lib t lengths contents c ≡ (ok, raw)
  unfolding uncompressed
  uncompressed-compress t lengths contents raw c full e =
      rw (uncompressed, lib.length-compress t raw c full e, lib.uncompress-compress t raw c e) refl

  -- What compression makes shorter is not empty.
  not_empty : (raw c : Bytes) → ltb (length c) (length raw - length raw / 8) ≡ true → raw ≢ []
  not_empty [] c saves e = absurd (ground arith)
  not_empty (x ∷ raw) c saves e = cc

  unpack-block_contents :
      (t : CompressionType) (raw : Bytes)
      → unpack (block_contents lib t raw).1 (block_contents lib t raw).0 ≡ (ok, raw)
  unfolding block_contents unpack
  unpack-block_contents no_compression raw = refl
  unpack-block_contents snappy raw = elim (Option-cases (lib.compress snappy raw)) [
    | inl failed ↦ rw (block_contents, failed) refl
    | inr (c, done) ↦ elim (Bool-cases (ltb (length c) (length raw - length raw / 8))) [
      | inl saves ↦
          rw (block_contents, done, saves)
            (uncompressed-compress snappy _ _ raw c (not_empty raw c saves) done)
      | inr large ↦ rw (block_contents, done, large) refl
    ]
  ]
  unpack-block_contents zstd raw = elim (Option-cases (lib.compress zstd raw)) [
    | inl failed ↦ rw (block_contents, failed) refl
    | inr (c, done) ↦ elim (Bool-cases (ltb (length c) (length raw - length raw / 8))) [
      | inl saves ↦
          rw (block_contents, done, saves)
            (uncompressed-compress zstd _ _ raw c (not_empty raw c saves) done)
      | inr large ↦ rw (block_contents, done, large) refl
    ]
  ]

  -- A block that `WriteBlock` wrote at the end of a file that takes every write, compressed or not, is read back by
  -- `ReadBlock` from the handle that it set, whatever is written behind it and whether checksums are verified or not.
  pub read_block-write_block :
      (r : Rep Bytes) (block : BlockBuilder) (rest : Bytes) (verify : Bool)
      → r.offset ≡ length r.file
      → read_block crc lib
          (read_at ((write_block crc lib intact r block).0.file ++ rest))
          verify
          (write_block crc lib intact r block).1
        ≡ (ok, (finish block).buffer)
  unfolding write_block write_raw_block append_block
  read_block-write_block r block rest verify at =
      let raw : Bytes = (finish block).buffer in
      let c : Bytes = (block_contents lib r.options.compression raw).0 in
      let t : CompressionType = (block_contents lib r.options.compression raw).1 in
      let bytes : ((r.file ++ c) ++ trailer crc c t) ++ rest
          ≡ r.file ++ (c ++ (trailer crc c t ++ rest)) =
        simp append_assoc in
      rw bytes (
        read_block-trailer r.file c t rest verify r.offset (length c) at refl
        ∙ unpack-block_contents r.options.compression raw)
