-- ===== src/Table/Builder/Entries.antt =====
-- `Add` and `Finish` of table/table_builder.cc.
use rally_db.Prelude.{
  ◌+◌, ◌%◌, ◌^◌, [], ◌∷◌, ◌++◌, true, false, not, none, some, leb, if◌then◌else◌, length,
}
use rally_db.Util.Status.{is_ok}
use rally_db.Util.Coding.{Bytes}
use rally_db.Util.Logging.{number_to_string}
use rally_db.Util.Crc.{Crc}
use rally_db.Util.Comparator.{negative}
use rally_db.Table.Format.{BlockHandle, no_compression, Compressors, encode_handle, encode_footer}
use rally_db.Table.Block.Builder.{
  BlockBuilder, new_block_builder, reset, current_size_estimate, add,
}
use rally_db.Table.FilterBlock.Builder.{add_key, return_filters, finish as finish_filters}
use rally_db.Db.Log.Writer.{WritableFile}
use rally_db.Table.Builder.{Rep, unset_handle, write_raw_filters, write_block, flush}

-- "leveldb.kv.number" and "filter."
abbrev pub kv_number_key : Bytes
kv_number_key =
    108 ∷ 101 ∷ 118 ∷ 101 ∷ 108 ∷ 100 ∷ 98 ∷ 46 ∷ 107 ∷ 118 ∷ 46 ∷ 110 ∷ 117 ∷ 109 ∷ 98 ∷ 101 ∷ 114
    ∷ []

abbrev pub filter_prefix : Bytes
filter_prefix = 102 ∷ 105 ∷ 108 ∷ 116 ∷ 101 ∷ 114 ∷ 46 ∷ []

module _ (crc : Crc) (lib : Compressors) {F : Type 0} (files : WritableFile F) where
  -- The entry of the index block that waits for the next key: `separated` is the key that the comparator
  -- made of the last one.
  unfoldable pub add_index_entry : Rep F → (separated : Bytes) → Rep F
  add_index_entry r separated = record r {
    last_key = separated;
    index_block = add 1 r.index_block separated (encode_handle [] r.pending_handle);
    pending_index_entry = false;
  }

  -- `Add`. (Its assertions are not part of a release build.)
  unfoldable pub add_entry : Rep F → (key val : Bytes) → Rep F
  add_entry r key val =
      let indexed =
        if r.pending_index_entry
        then add_index_entry r (r.options.comparator.shortest_separator r.last_key key)
        else r in
      let filled : Rep F = record indexed {
        filter_block = elim indexed.filter_block [ none ↦ none | some b ↦ some (add_key b key) ];
        last_key = key;
        num_entries = indexed.num_entries + 1;
        data_block = add indexed.options.block_restart_interval indexed.data_block key val;
      } in
      let flushed = flush crc lib files filled in
      if not (is_ok r.status)
      then r
      else if leb filled.options.block_size (current_size_estimate filled.data_block)
      then flushed
      else filled

  -- `Finish`, step by step. The filter block: its units, and the contents that the metaindex block gets.
  unfoldable pub finish_filter_block : Rep F → Rep F × Bytes
  finish_filter_block r = elim r.options.filter_policy [
    | none ↦ (r, [])
    | some (name, policy) ↦ elim r.filter_block [
      | none ↦ (r, [])
      | some b ↦
          let b' = return_filters policy b in
          let (written, handle) =
            write_raw_filters crc lib files r b'.filter_units no_compression in
          (record written { filter_block = some b' }, finish_filters b' handle.offset handle.size)
    ]
  ]

  -- The entries of the metaindex block, in the order of the comparator. `std::to_string` writes the digits that
  -- `NumberToString` does.
  unfoldable pub metaindex_block : Rep F → (filter_block_meta : Bytes) → BlockBuilder
  metaindex_block r meta =
      let interval = r.options.block_restart_interval in
      let number = number_to_string r.num_entries in
      let numbered = add interval new_block_builder kv_number_key number in
      elim r.options.filter_policy [
        | none ↦ numbered
        | some (name, policy) ↦
            let filter_key = filter_prefix ++ name in
            let filtered = add interval new_block_builder filter_key meta in
            elim (r.options.comparator.cmp filter_key kv_number_key) [
              | negative ↦ add interval filtered kv_number_key number
              | _ ↦ add interval numbered filter_key meta
            ]
      ]

  unfoldable pub finish_index : Rep F → Rep F
  finish_index r =
      if r.pending_index_entry
      then add_index_entry r (r.options.comparator.short_successor r.last_key)
      else r

  unfoldable pub write_footer : Rep F → (metaindex index : BlockHandle) → Rep F
  write_footer r metaindex index =
      let bytes =
        encode_footer [] (record { metaindex_handle = metaindex; index_handle = index }) in
      let (s, f) = files.append r.file bytes in
      record r {
        file = f;
        status = s;
        offset = if is_ok s then (r.offset + length bytes) % 2 ^ 64 else r.offset;
      }

  -- The steps of `Finish`, each if the ones before it went well. A handle that no block was written for
  -- stays as its constructor made it; it is not used then.
  unfoldable pub write_filter_block : Rep F → Rep F × Bytes
  write_filter_block r = if is_ok r.status then finish_filter_block r else (r, [])

  unfoldable pub write_metaindex : Rep F → (filter_block_meta : Bytes) → Rep F × BlockHandle
  write_metaindex r meta =
      if is_ok r.status
      then write_block crc lib files r (metaindex_block r meta)
      else (r, unset_handle)

  unfoldable pub write_index : Rep F → Rep F × BlockHandle
  write_index r =
      let indexed = finish_index r in
      let (written, handle) = write_block crc lib files indexed indexed.index_block in
      if is_ok r.status
      then (record written { index_block = reset indexed.index_block }, handle)
      else (r, unset_handle)

  unfoldable pub finish_table : Rep F → Rep F
  finish_table r =
      let (filtered, meta) =
        write_filter_block (record (flush crc lib files r) { closed = true }) in
      let (based, metaindex) = write_metaindex filtered meta in
      let (indexed, index) = write_index based in
      if is_ok indexed.status then write_footer indexed metaindex index else indexed
