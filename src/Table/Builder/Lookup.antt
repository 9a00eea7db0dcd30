-- ===== src/Table/Builder/Lookup.antt =====
-- The whole way of a table's filters: from the keys over the file to a lookup.
use rally_db.Prelude.{
  ℕ, ◌+◌, ◌*◌, ◌^◌, ◌<◌, ◌++◌, ◌≡◌, ◌∙◌, refl, sym, List, [], Bool, true, arith, length, get_or,
  take, ltb, Bool-cases, inl, inr,
}
use rally_db.Util.Status.{ok}
use rally_db.Util.Coding.{Bytes}
use rally_db.Util.Crc.{Crc}
use rally_db.Util.Bloom.{bloom_policy}
use rally_db.Util.Bloom.Contract.{bloom_policy-IsFilterPolicy, key_may_match-bloom_policy}
use rally_db.Table.Format.{no_compression, Compressors}
use rally_db.Table.Builder.{Rep, write_raw_filters, append_filters}
use rally_db.Table.Builder.Blocks.{intact}
use rally_db.Table.Builder.Filters.{reads, init_load_filter-Reads}
use rally_db.Table.FilterBlock.Builder.{FilterBlockBuilder, new_builder, return_filters, finish}
use rally_db.Table.FilterBlock.Reader.{
  FilterBlockReader, new_reader, init_load_filter, key_may_match,
}
use rally_db.Table.FilterBlock.Run.{run_blocks, IsRising, InBlock, keys_number}
use rally_db.Table.FilterBlock.Contents.{new_reader_fields}
use rally_db.Table.FilterBlock.Served.{units_of_run}

-- A new reader has loaded nothing.
none_loaded :
    (memory : FilterBlockReader) (contents : Bytes) (number : ℕ)
    → (new_reader memory contents number).filter_units ≡ []
unfolding new_reader
none_loaded memory contents number = elim (Bool-cases (ltb (length contents) 25)) [
  | inl short ↦ rw (new_reader, short) refl
  | inr long ↦ rw (new_reader, long) refl
]

-- The builder that got the blocks, with its open group closed.
abbrev pub built : ℕ → List (ℕ × List Bytes) → FilterBlockBuilder
built bits_per_key blocks =
    return_filters (bloom_policy bits_per_key)
      (run_blocks (bloom_policy bits_per_key) new_builder blocks)

-- The size of a unit.
abbrev pub unit_bytes : ℕ → List (ℕ × List Bytes) → ℕ
unit_bytes bits_per_key blocks = length (get_or (built bits_per_key blocks).filter_units 0 [])

module _ (crc : Crc) (lib : Compressors) where
  -- A table's keys go to a `FilterBlockBuilder` with Bloom filters, block by block, with offsets that do not fall;
  -- `WriteRawFilters` appends the units to a file that takes every write, `Finish` makes the filter block, and a reader
  -- that is made of it runs `InitLoadFilter` on the file. Then the units load without an error, and `KeyMayMatch` lets
  -- every key of a block pass at the block's offset. A unit stays below 2^32 bytes, the file below 2^64, and the keys' bits
  -- below 2^63.
  pub init_load_filter-write_raw_filters :
      (bits_per_key : ℕ) (blocks : List (ℕ × List Bytes)) (r : Rep Bytes) (rest : Bytes)
      (verify : Bool) (memory : FilterBlockReader) (number o : ℕ) (key : Bytes)
      → keys_number blocks * bits_per_key < 2 ^ 63
      → IsRising 0 blocks
      → InBlock o key blocks
      → r.offset ≡ length r.file
      → unit_bytes bits_per_key blocks < 2 ^ 32
      → r.offset + (unit_bytes bits_per_key blocks + 5) * 6 < 2 ^ 64
      → let b = built bits_per_key blocks in
        let written = write_raw_filters crc lib intact r b.filter_units no_compression in
        let reader = new_reader memory (finish b written.1.offset written.1.size) number in
        let loaded = init_load_filter (reads crc lib (written.0.file ++ rest) verify) reader in
        (loaded.0 ≡ ok) × (key_may_match (bloom_policy bits_per_key) loaded.1 o key ≡ true)
  unfolding write_raw_filters key_may_match
  init_load_filter-write_raw_filters bits_per_key blocks r rest verify memory number o key few
        rising within at small fits =
      let is = bloom_policy-IsFilterPolicy bits_per_key (keys_number blocks) few in
      let (empty, same, six) = units_of_run (bloom_policy bits_per_key) is blocks rising in
      let b : FilterBlockBuilder = built bits_per_key blocks in
      let n : ℕ = unit_bytes bits_per_key blocks in
      let reader : FilterBlockReader = new_reader memory (finish b r.offset n) number in
      let (lg, num, size, contents, place, init, all) =
        new_reader_fields memory b r.offset n number empty small (omega arith) in
      let loaded : init_load_filter
            (reads crc lib
              ((append_filters crc lib intact r b.filter_units no_compression).file ++ rest) verify)
            reader
          ≡ (
            ok,
            record reader {
              filter_units = take reader.init_units_number b.filter_units;
              init_done = true;
            },
          ) =
        init_load_filter-Reads crc lib r b.filter_units n rest verify at same (rw six fits) reader
          (place, size, all ∙ sym six, none_loaded memory (finish b r.offset n) number)
          (omega arith) in
      rw loaded (
        refl,
        key_may_match-bloom_policy bits_per_key blocks memory r.offset number
            reader.init_units_number o key few rising within small (omega arith),
      )
