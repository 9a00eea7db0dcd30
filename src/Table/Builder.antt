-- ===== src/Table/Builder.antt =====
-- table/table_builder.cc: `TableBuilder`, which writes a table file block by block.
pub mod Entries
pub mod Blocks
pub mod Filters
pub mod Lookup
use rally_db.Prelude.{
  ℕ, zero, suc, ◌+◌, ◌-◌, ◌*◌, ◌/◌, ◌%◌, ◌^◌, List, [], ◌∷◌, ◌++◌, Bool, true, false, not, Option,
  none, some, ltb, leb, ◌==◌, if◌then◌else◌, length, get_or,
}
use rally_db.Util.Status.{Status, ok, is_ok}
use rally_db.Util.Coding.{Bytes, encode_fixed32}
use rally_db.Util.Crc.{Crc, checksum, mask}
use rally_db.Util.Comparator.{Comparator, negative, null, positive}
use rally_db.Table.Format.{
  BlockHandle, Footer, CompressionType, no_compression, snappy, zstd, type_code, Compressors,
  block_trailer_size, encode_handle, encode_footer,
}
use rally_db.Table.Block.Builder.{
  BlockBuilder, new_block_builder, reset, current_size_estimate, finish, add,
}
use rally_db.Table.FilterBlock.{FilterPolicy}
use rally_db.Table.FilterBlock.Builder.{
  FilterBlockBuilder, new_builder, start_block, add_key, return_filters, finish as finish_filters,
}
use rally_db.Db.Log.Writer.{WritableFile}

-- The options that the builder reads. A filter policy comes with its name.
pub record Options : Type 0 where
  pub comparator : Comparator
  pub filter_policy : Option (Bytes × FilterPolicy)
  pub block_size : ℕ
  pub block_restart_interval : ℕ
  pub compression : CompressionType

-- `Rep`. `compressed_output` is scratch space of `WriteBlock`.
pub record Rep (F : Type 0) : Type 0 where
  pub options : Options
  pub file : F
  pub offset : ℕ
  pub status : Status
  pub data_block : BlockBuilder
  pub index_block : BlockBuilder
  pub last_key : Bytes
  pub num_entries : ℕ
  pub closed : Bool
  pub filter_block : Option FilterBlockBuilder
  pub pending_index_entry : Bool
  pub pending_handle : BlockHandle

-- The handle that its constructor makes: all ones.
abbrev pub unset_handle : BlockHandle
unset_handle = record { offset = 2 ^ 64 - 1; size = 2 ^ 64 - 1 }

-- The constructor, with `StartBlock(0)`.
unfoldable pub new_table_builder : {F : Type 0} → Options → F → Rep F
new_table_builder options file = record {
  options = options;
  file = file;
  offset = 0;
  status = ok;
  data_block = new_block_builder;
  index_block = new_block_builder;
  last_key = [];
  num_entries = 0;
  closed = false;
  filter_block = elim options.filter_policy [
    | none ↦ none
    | some (name, policy) ↦ some (start_block policy new_builder 0)
  ];
  pending_index_entry = false;
  pending_handle = unset_handle;
}

-- The type and the masked checksum behind a block.
unfoldable pub trailer : Crc → Bytes → CompressionType → Bytes
trailer crc contents type =
    let sum = crc.extend (checksum crc contents) (type_code type ∷ []) in
    type_code type ∷ encode_fixed32 (mask sum)

-- What `WriteBlock` stores: a compressed block must save an eighth.
unfoldable pub block_contents : Compressors → CompressionType → Bytes → Bytes × CompressionType
block_contents lib no_compression raw = (raw, no_compression)
block_contents lib t raw = elim (lib.compress t raw) [
  | none ↦ (raw, no_compression)
  | some c ↦ if ltb (length c) (length raw - length raw / 8) then (c, t) else (raw, no_compression)
]

module _ (crc : Crc) (lib : Compressors) {F : Type 0} (files : WritableFile F) where
  -- `WriteRawBlock`, without the handle.
  unfoldable pub append_block : Rep F → Bytes → CompressionType → Rep F
  append_block r contents type =
      let (s, f) = files.append r.file contents in
      elim (is_ok s) [
        | true ↦
            let (s', f') = files.append f (trailer crc contents type) in
            let offset = (r.offset + (length contents + block_trailer_size)) % 2 ^ 64 in
            record r { file = f'; status = s'; offset = if is_ok s' then offset else r.offset }
        | false ↦ record r { file = f; status = s }
      ]

  unfoldable pub write_raw_block : Rep F → Bytes → CompressionType → Rep F × BlockHandle
  write_raw_block r contents type =
      (append_block r contents type, record { offset = r.offset; size = length contents })

  -- The loop of `WriteRawFilters`: a failed write does not end it, and the next one sets the status anew.
  unfoldable pub append_filters : Rep F → List Bytes → CompressionType → Rep F
  append_filters r [] type = r
  append_filters r (filter ∷ filters) type =
      append_filters (append_block r filter type) filters type

  unfoldable pub write_raw_filters : Rep F → List Bytes → CompressionType → Rep F × BlockHandle
  write_raw_filters r filters type = (
    append_filters r filters type,
    record { offset = r.offset; size = length (get_or filters 0 []) },
  )

  -- `WriteBlock`: the builder is reset by the caller, in whose state it stands.
  unfoldable pub write_block : Rep F → BlockBuilder → Rep F × BlockHandle
  write_block r block =
      let raw = (finish block).buffer in
      let (contents, type) = block_contents lib r.options.compression raw in
      write_raw_block r contents type

  unfoldable pub flush : Rep F → Rep F
  flush r =
      let (written, handle) = write_block r r.data_block in
      let emptied : Rep F = record written {
        data_block = reset r.data_block;
        pending_handle = handle;
      } in
      let (s, f) = files.flush emptied.file in
      let flushed : Rep F = elim (is_ok emptied.status) [
        | true ↦ record emptied { pending_index_entry = true; status = s; file = f }
        | false ↦ emptied
      ] in
      let started : Option FilterBlockBuilder = elim flushed.options.filter_policy [
        | none ↦ flushed.filter_block
        | some (name, policy) ↦ elim flushed.filter_block [
          | none ↦ none
          | some b ↦ some (start_block policy b flushed.offset)
        ]
      ] in
      if not (is_ok r.status)
      then r
      else if length r.data_block.buffer == 0
      then r
      else record flushed { filter_block = started }

unfoldable pub abandon : {F : Type 0} → Rep F → Rep F
abandon r = record r { closed = true }
