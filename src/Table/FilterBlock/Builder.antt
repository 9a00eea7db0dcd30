-- ===== src/Table/FilterBlock/Builder.antt =====
-- `FilterBlockBuilder` of table/filter_block.cc.
use rally_db.Prelude.{
  ℕ, zero, suc, ◌+◌, ◌-◌, ◌/◌, ◌%◌, ◌^◌, List, [], ◌∷◌, ◌++◌, true, false, ltb, ◌==◌, if◌then◌else◌,
  length, get_or, take, drop,
}
use rally_db.Util.Coding.{Bytes, put_fixed32, put_fixed64}
use rally_db.Table.FilterBlock.{
  FilterPolicy, load_filter_units_number, all_filter_units_number, filter_base_lg, filter_base,
}

pub record FilterBlockBuilder : Type 0 where
  pub keys : Bytes
  pub start : List ℕ
  pub result : Bytes
  pub filter_offsets : List ℕ
  pub filter_units : List Bytes

-- The constructor: `filter_units_.resize(kAllFilterUnitsNumber)`.
unfoldable pub new_builder : FilterBlockBuilder
new_builder = record {
  keys = [];
  start = [];
  result = [];
  filter_offsets = [];
  filter_units = [] ∷ [] ∷ [] ∷ [] ∷ [] ∷ [] ∷ [];
}

unfoldable pub add_key : FilterBlockBuilder → Bytes → FilterBlockBuilder
add_key b key = record b { start = b.start ++ (length b.keys ∷ []); keys = b.keys ++ key }

-- `tmp_keys_[i]`: the keys that `start_`, with the end of the last key behind it, cuts out of `keys_`.
unfoldable pub slices : Bytes → List ℕ → List Bytes
slices keys [] = []
slices keys (s ∷ []) = []
slices keys (s ∷ e ∷ start) = take (e - s) (drop s keys) ∷ slices keys (e ∷ start)

-- `filter_units_[0].size()`, narrowed to the `uint32_t` of an offset.
abbrev pub unit_size : List Bytes → ℕ
unit_size units = length (get_or units 0 []) % 2 ^ 32

module _ (policy : FilterPolicy) where
  -- The calls of `CreateFilter`, one for each unit from number `i` on.
  unfoldable pub create_units : ℕ → List Bytes → List Bytes → List Bytes
  create_units i tmp_keys [] = []
  create_units i tmp_keys (unit ∷ units) =
      let (unit', tmp_keys') = policy.create_filter tmp_keys unit i in
      unit' ∷ create_units (i + 1) tmp_keys' units

  unfoldable pub generate_filter : FilterBlockBuilder → FilterBlockBuilder
  generate_filter b =
      let offsets = b.filter_offsets ++ (unit_size b.filter_units ∷ []) in
      if length b.start == 0 then record b { filter_offsets = offsets } else record b {
        keys = [];
        start = [];
        filter_offsets = offsets;
        filter_units =
            create_units 0 (slices b.keys (b.start ++ (length b.keys ∷ []))) b.filter_units;
      }

  -- `while (filter_index > filter_offsets_.size())`: each round adds an offset, so `filter_index`
  -- rounds are enough.
  unfoldable pub start_loop : ℕ → ℕ → FilterBlockBuilder → FilterBlockBuilder
  start_loop zero filter_index b = b
  start_loop (suc fuel) filter_index b = elim (ltb (length b.filter_offsets) filter_index) [
    | true ↦ start_loop fuel filter_index (generate_filter b)
    | false ↦ b
  ]

  unfoldable pub start_block : FilterBlockBuilder → ℕ → FilterBlockBuilder
  start_block b block_offset =
      start_loop (block_offset / filter_base) (block_offset / filter_base) b

  -- `ReturnFilters`: the units, and the builder as it is left.
  unfoldable pub return_filters : FilterBlockBuilder → FilterBlockBuilder
  return_filters b = if length b.start == 0 then b else generate_filter b

-- The loop over `filter_offsets_` of `Finish`.
unfoldable pub put_offsets : Bytes → List ℕ → Bytes
put_offsets dst [] = dst
put_offsets dst (o ∷ os) = put_offsets (put_fixed32 dst o) os

-- `Finish`, for the handle `offset`, `size` of the first unit on disk.
unfoldable pub finish : FilterBlockBuilder → (offset size : ℕ) → Bytes
finish b offset size =
    let offsets = put_fixed32 (put_offsets b.result b.filter_offsets) (unit_size b.filter_units) in
    let place = put_fixed32 (put_fixed64 offsets offset) (size % 2 ^ 32) in
    put_fixed32 (put_fixed32 place load_filter_units_number) all_filter_units_number
    ++ (filter_base_lg ∷ [])
