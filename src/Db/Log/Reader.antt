-- ===== src/Db/Log/Reader.antt =====
-- db/log_reader.cc: `log::Reader`.
use rally_db.Prelude.{
  ℕ, zero, suc, bit_or, ◌+◌, ◌-◌, ◌*◌, ◌%◌, ◌^◌, List, [], ◌∷◌, ◌++◌, Bool, true, false, ◌&&◌, not,
  Option, none, some, ltb, leb, ◌==◌, if◌then◌else◌, length, get_or, take, drop, sub64,
}
use rally_db.Util.Status.{Status, corruption, is_ok}
use rally_db.Util.Coding.{Bytes, decode_fixed32}
use rally_db.Util.Crc.{Crc, checksum, unmask}
use rally_db.Db.Log.{
  zero_type, full_type, first_type, middle_type, last_type, eof, bad_record, block_size,
  header_size,
}
use Prim.Native.String.{String}

-- The interface `SequentialFile` of include/leveldb/env.h.
pub record SequentialFile (F : Type 0) : Type 0 where
  pub read : F → ℕ → Status × Bytes × F
  pub skip : F → ℕ → Status × F

-- A status that is reported. `unknown_type` is the corruption whose text names the type.
pub data Reason : Type 0 where
  failed : Status → Reason
  unknown_type : ℕ → Reason

-- The reader, with the calls of `reporter_->Corruption` so far; `has_reporter` is `reporter_ !=
-- nullptr`.
pub record Reader (F : Type 0) : Type 0 where
  pub file : F
  pub has_reporter : Bool
  pub checksums : Bool
  pub buffer : Bytes
  pub at_eof : Bool
  pub last_record_offset : ℕ
  pub end_of_buffer_offset : ℕ
  pub initial_offset : ℕ
  pub resyncing : Bool
  pub reports : List (ℕ × Reason)

unfoldable pub new_reader : {F : Type 0} → F → (has_reporter checksums : Bool) → ℕ → Reader F
new_reader file has_reporter checksums initial_offset = record {
  file = file;
  has_reporter = has_reporter;
  checksums = checksums;
  buffer = [];
  at_eof = false;
  last_record_offset = 0;
  end_of_buffer_offset = 0;
  initial_offset = initial_offset;
  resyncing = ltb 0 initial_offset;
  reports = [];
}

-- `unsigned int type = header[6]` extends the sign of the char.
abbrev pub sign_extend : ℕ → ℕ
sign_extend b = if ltb b 128 then b else b + (2 ^ 32 - 256)

module _ {F : Type 0} where
  -- `end_of_buffer_offset_ - buffer_.size() - a - b`, in `uint64_t`.
  abbrev pub offset_before : Reader F → ℕ → ℕ → ℕ
  offset_before r a b = sub64 (sub64 (sub64 r.end_of_buffer_offset (length r.buffer)) a) b

  unfoldable pub report_drop : Reader F → ℕ → Reason → Reader F
  report_drop r bytes reason =
      if r.has_reporter && leb r.initial_offset (offset_before r bytes 0)
      then record r { reports = r.reports ++ ((bytes, reason) ∷ []) }
      else r

  unfoldable pub report_corruption : Reader F → ℕ → String → Reader F
  report_corruption r bytes reason = report_drop r bytes (failed (corruption reason))

  abbrev pub clear_buffer : Reader F → Reader F
  clear_buffer r = record r { buffer = [] }

module _ (crc : Crc) {F : Type 0} (sequential : SequentialFile F) where
  unfoldable pub skip_to_initial_block : Reader F → Bool × Reader F
  skip_to_initial_block r =
      let offset_in_block = r.initial_offset % block_size in
      let block_start = r.initial_offset - offset_in_block in
      let block_start_location =
        if ltb (block_size - 6) offset_in_block
        then (block_start + block_size) % 2 ^ 64
        else block_start in
      let r' = record r { end_of_buffer_offset = block_start_location } in
      if ltb 0 block_start_location
      then (let (skip_status, file) = sequential.skip r'.file block_start_location in
          let r'' = record r' { file = file } in
          if is_ok skip_status
          then (true, r'')
          else (false, report_drop r'' block_start_location (failed skip_status)))
      else (true, r')

  -- The rest of a round of `ReadPhysicalRecord` when the buffer has a header: the type, the fragment
  -- and the reader. `result` is what the caller passed, which most errors leave alone.
  unfoldable pub parse_physical_record : Reader F → Bytes → ℕ × Bytes × Reader F
  parse_physical_record r result =
      let header = r.buffer in
      let type = sign_extend (get_or header 6 0) in
      let len = bit_or (get_or header 4 0) (get_or header 5 0 * 2 ^ 8) in
      let cleared = clear_buffer r in
      let bad_crc = report_corruption cleared (length r.buffer) "checksum mismatch" in
      let r' = record r { buffer = drop (header_size + len) r.buffer } in
      if ltb (length r.buffer) (header_size + len)
      then (if r.at_eof then (eof, result, cleared) else (
        bad_record,
        result,
        report_corruption cleared (length r.buffer) "bad record length",
      ))
      else if type == zero_type && len == 0
      then (bad_record, result, cleared)
      else if r.checksums
          && not (checksum crc (take (1 + len) (drop 6 header)) == unmask (decode_fixed32 header))
      then (bad_record, result, bad_crc)
      else if ltb (offset_before r' header_size len) r.initial_offset
      then (bad_record, [], r')
      else (type, take len (drop header_size header), r')

  -- The loop: a round that reads is followed by one that parses or meets the end of the file, or by
  -- the second of them behind a short read, so fuel 3 is enough; `none` means that it ran out.
  unfoldable pub physical_loop : ℕ → Reader F → Bytes → Option (ℕ × Bytes × Reader F)
  physical_loop zero r result = none
  physical_loop (suc fuel) r result =
      let (status, bytes, file) = sequential.read r.file block_size in
      let filled = record r {
        file = file;
        buffer = bytes;
        end_of_buffer_offset = (r.end_of_buffer_offset + length bytes) % 2 ^ 64;
      } in
      let lost = report_drop (clear_buffer filled) block_size (failed status) in
      let short = ltb (length bytes) block_size in
      let reread =
        physical_loop fuel (if short then record filled { at_eof = true } else filled) result in
      if ltb (length r.buffer) header_size
      then (if r.at_eof
          then some (eof, result, clear_buffer r)
          else if is_ok status
          then reread
          else some (eof, result, record lost { at_eof = true }))
      else some (parse_physical_record r result)

  unfoldable pub read_physical_record : Reader F → Bytes → Option (ℕ × Bytes × Reader F)
  read_physical_record r result = physical_loop 3 r result

  -- What the switch of `ReadRecord` does with a physical record: the result of the method (`false`
  -- is `none`), or `in_fragmented_record`, `prospective_record_offset` and `scratch` of the next round.
  pub data Step : Type 0 where
    done : Option Bytes → Reader F → Step
    again : Bool → ℕ → Bytes → Reader F → Step

  -- The report of a partial record that a new one cuts off.
  unfoldable pub report_partial : Bool → Bytes → String → Reader F → Reader F
  report_partial in_fragmented scratch reason r =
      if in_fragmented && ltb 0 (length scratch)
      then report_corruption r (length scratch) reason
      else r

  unfoldable pub read_step : ℕ → Bytes → ℕ → Bool → ℕ → Bytes → Reader F → Step
  read_step type fragment physical_offset in_fragmented prospective scratch r =
      if type == full_type
      then (let r' = report_partial in_fragmented scratch "partial record without end(1)" r in
          done (some fragment) (record r' { last_record_offset = physical_offset }))
      else if type == first_type
      then (let r' = report_partial in_fragmented scratch "partial record without end(2)" r in
          again true physical_offset fragment r')
      else if type == middle_type
      then (if in_fragmented
          then again true prospective (scratch ++ fragment) r
          else again false prospective scratch
              (report_corruption r (length fragment) "missing start of fragmented record(1)"))
      else if type == last_type
      then (if in_fragmented
          then done (some (scratch ++ fragment)) (record r { last_record_offset = prospective })
          else again false prospective scratch
              (report_corruption r (length fragment) "missing start of fragmented record(2)"))
      else if type == eof
      then done none r
      else if type == bad_record
      then (if in_fragmented
          then again false prospective []
              (report_corruption r (length scratch) "error in middle of record")
          else again false prospective scratch r)
      else (let dropped = length fragment + (if in_fragmented then length scratch else 0) in
          again false prospective [] (report_drop r dropped (unknown_type type)))

  -- One round of the loop of `ReadRecord`, for what `ReadPhysicalRecord` gave: a reader that looks for
  -- its first record skips the rest of one that began before.
  unfoldable pub read_round : ℕ → Bytes → Bool → ℕ → Bytes → Reader F → Step
  read_round type fragment in_fragmented prospective scratch r =
      let physical_offset = offset_before r header_size (length fragment) in
      let woken = record r { resyncing = false } in
      if r.resyncing && type == middle_type
      then again in_fragmented prospective scratch r
      else if r.resyncing && type == last_type
      then again in_fragmented prospective scratch woken
      else read_step type fragment physical_offset in_fragmented prospective scratch woken

  -- The loop of `ReadRecord`; `none` means that the fuel, a number of physical records, ran out.
  unfoldable pub read_loop :
      ℕ → Bytes → Bool → ℕ → Bytes → Reader F → Option (Option Bytes × Reader F)
  read_loop zero fragment in_fragmented prospective scratch r = none
  read_loop (suc fuel) fragment in_fragmented prospective scratch r =
      elim (read_physical_record r fragment) [
        | none ↦ none
        | some (type, fragment', r') ↦
            elim (read_round type fragment' in_fragmented prospective scratch r') [
              | done found r'' ↦ some (found, r'')
              | again in_fragmented' prospective' scratch' r'' ↦
                  read_loop fuel fragment' in_fragmented' prospective' scratch' r''
            ]
      ]

  unfoldable pub read_record : ℕ → Reader F → Option (Option Bytes × Reader F)
  read_record fuel r =
      if ltb r.last_record_offset r.initial_offset
      then (let (found, r') = skip_to_initial_block r in
          if found then read_loop fuel [] false 0 [] r' else some (none, r'))
      else read_loop fuel [] false 0 [] r
