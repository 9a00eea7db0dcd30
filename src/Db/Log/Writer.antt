-- ===== src/Db/Log/Writer.antt =====
-- db/log_writer.cc: `log::Writer`.
use rally_db.Prelude.{
  ℕ, zero, suc, ◌+◌, ◌-◌, ◌*◌, ◌/◌, ◌%◌, [], ◌∷◌, ◌++◌, Bool, true, false, ◌&&◌, Option, none, some,
  ltb, ◌==◌, if◌then◌else◌, length, take, drop,
}
use rally_db.Util.Status.{Status, ok, is_ok}
use rally_db.Util.Coding.{Bytes, encode_fixed32}
use rally_db.Util.Crc.{Crc, checksum, mask}
use rally_db.Db.Log.{full_type, first_type, middle_type, last_type, block_size, header_size}

-- The part of the interface `WritableFile` of include/leveldb/env.h that the writer calls.
pub record WritableFile (F : Type 0) : Type 0 where
  pub append : F → Bytes → Status × F
  pub flush : F → Status × F

-- `dest_` and `block_offset_`. `type_crc_` is no state: it is the checksum of the one byte of each type.
pub record Writer (F : Type 0) : Type 0 where
  pub dest : F
  pub block_offset : ℕ

unfoldable pub new_writer : {F : Type 0} → F → (dest_length : ℕ) → Writer F
new_writer dest dest_length = record { dest = dest; block_offset = dest_length % block_size }

-- `buf` of `EmitPhysicalRecord`.
unfoldable pub record_header : Crc → ℕ → Bytes → Bytes
record_header crc t payload =
    encode_fixed32 (mask (crc.extend (checksum crc (t ∷ [])) payload))
    ++ ((length payload % 256) ∷ (length payload / 256 % 256) ∷ t ∷ [])

-- The type of a fragment, from `begin` and `end`.
unfoldable pub fragment_type : Bool → Bool → ℕ
fragment_type true true = full_type
fragment_type true false = first_type
fragment_type false true = last_type
fragment_type false false = middle_type

unfoldable pub fragment_length : (block_offset left : ℕ) → ℕ
fragment_length block_offset left =
    let avail = block_size - block_offset - header_size in if ltb left avail then left else avail

module _ (crc : Crc) {F : Type 0} (file : WritableFile F) where
  unfoldable pub emit_physical_record : Writer F → ℕ → Bytes → Status × Writer F
  emit_physical_record w t payload =
      let (s, dest) = file.append w.dest (record_header crc t payload) in
      let block_offset = w.block_offset + header_size + length payload in
      elim s [
        | ok ↦
            (let (s', dest') = file.append dest payload in
              elim s' [
                | ok ↦
                    (let (s'', dest'') = file.flush dest' in
                      (s'', record { dest = dest''; block_offset = block_offset }))
                | e ↦ (e, record { dest = dest'; block_offset = block_offset })
              ])
        | e ↦ (e, record { dest = dest; block_offset = block_offset })
      ]

  -- The block that is left when no header fits: its rest is filled with zeros, and the status of that
  -- is not looked at.
  unfoldable pub switch_block : Writer F → Writer F
  switch_block w =
      let leftover = block_size - w.block_offset in
      if ltb leftover header_size
      then record {
        dest =
            if ltb 0 leftover
            then (file.append w.dest (take leftover (0 ∷ 0 ∷ 0 ∷ 0 ∷ 0 ∷ 0 ∷ []))).1
            else w.dest;
        block_offset = 0;
      }
      else w

  -- The rounds of the loop of `AddRecord`, for the bytes that are left; `none` means that the fuel
  -- ran out.
  unfoldable pub add_record_loop : ℕ → Writer F → Bytes → Bool → Option (Status × Writer F)
  add_record_loop zero w left begin = none
  add_record_loop (suc fuel) w left begin =
      let w' = switch_block w in
      let n = fragment_length w'.block_offset (length left) in
      let t = fragment_type begin (length left == n) in
      let (s, w'') = emit_physical_record w' t (take n left) in
      let rest = add_record_loop fuel w'' (drop n left) false in
      if is_ok s && ltb 0 (length left - n) then rest else some (s, w'')

  -- A round takes a byte of the record, but for one that finds room for a header only: the next round
  -- is in a new block.
  unfoldable pub add_record : Writer F → Bytes → Option (Status × Writer F)
  add_record w slice = add_record_loop (2 * length slice + 2) w slice true
