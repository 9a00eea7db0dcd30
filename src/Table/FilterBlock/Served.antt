-- ===== src/Table/FilterBlock/Served.antt =====
-- A reader of the filter block that a builder wrote lets every key of a data block pass.
use rally_db.Prelude.{
  ℕ, zero, suc, ◌+◌, ◌-◌, ◌*◌, ◌/◌, ◌%◌, ◌^◌, ◌≤◌, ◌<◌, min, List, [], ◌∷◌, ◌++◌, ◌≡◌, ◌∙◌, refl,
  ap, true, arith, ltb, leb, length, length-append, append_assoc, get_or, take, drop,
  take_of_append, drop_behind, All,
}
use rally_db.Prelude.Bytes.{Among}
use rally_db.Util.Coding.{Bytes, IsU32, decode_fixed32}
use rally_db.Table.FilterBlock.{FilterPolicy, filter_base}
use rally_db.Table.FilterBlock.Builder.{
  FilterBlockBuilder, new_builder, return_filters, unit_size, finish,
}
use rally_db.Table.FilterBlock.Reader.{FilterBlockReader, new_reader, units_match, key_may_match}
use rally_db.Table.FilterBlock.Groups.{
  IsFilterPolicy, Holds, piece, unit, offsets, unit_list, new_builder-Holds,
}
use rally_db.Table.FilterBlock.Run.{
  run_blocks, IsRising, InBlock, keys_number, group, total, length-get_or, length-offsets,
  run_blocks-Later, return_filters-Holds,
}
use rally_db.Table.FilterBlock.Contents.{table, tail, decode_table, finish-table, new_reader_fields}

module _ (filter : ℕ → List Bytes → Bytes) where
  -- The table of offsets, with the end of the last filter.
  abbrev ends : List (List Bytes) → ℕ → List ℕ
  ends gs n = offsets filter n gs ++ (((n + length (unit filter 0 gs)) % 2 ^ 32) ∷ [])

  ends-IsU32 : (gs : List (List Bytes)) (n : ℕ) → All IsU32 (ends gs n)
  unfolding offsets unit
  ends-IsU32 [] n = (omega arith, tt)
  ends-IsU32 (g ∷ gs) n =
      let rest = ends-IsU32 gs (n + length (piece filter 0 g)) in
      let same_end : n + length (unit filter 0 (g ∷ gs))
          ≡ n + length (piece filter 0 g) + length (unit filter 0 gs) =
        omega (arith, length-append (piece filter 0 g) (unit filter 0 gs)) in
      (omega arith, rw same_end rest)

  length-ends : (gs : List (List Bytes)) (n : ℕ) → length (ends gs n) ≡ length gs + 1
  length-ends gs n = omega (
    arith,
    length-append (offsets filter n gs) (((n + length (unit filter 0 gs)) % 2 ^ 32) ∷ []),
    length-offsets filter n gs,
  )

  -- The offset of a group is the length of the filters in front of it.
  get_or-ends :
      (gs : List (List Bytes)) (n j : ℕ)
      → j ≤ length gs
      → n + length (unit filter 0 gs) < 2 ^ 32
      → get_or (ends gs n) j 0 ≡ n + length (unit filter 0 (take j gs))
  unfolding offsets unit
  get_or-ends [] n zero le small = omega arith
  get_or-ends [] n (suc j) le small = absurd (omega arith)
  get_or-ends (g ∷ gs) n zero le small = omega arith
  get_or-ends (g ∷ gs) n (suc j) le small =
      let whole = length-append (piece filter 0 g) (unit filter 0 gs) in
      let rest =
        get_or-ends gs (n + length (piece filter 0 g)) j (omega arith) (omega (arith, whole)) in
      let same_end : n + length (unit filter 0 (g ∷ gs))
          ≡ n + length (piece filter 0 g) + length (unit filter 0 gs) =
        omega (arith, whole) in
      rw same_end
        (omega (arith, rest, length-append (piece filter 0 g) (unit filter 0 (take j gs))))

  -- A unit, cut at a group's filter.
  unit_split :
      (i : ℕ) (gs : List (List Bytes)) (j : ℕ)
      → j < length gs
      → unit filter i gs
        ≡ unit filter i (take j gs)
          ++ (piece filter i (get_or gs j []) ++ unit filter i (drop (suc j) gs))
  unfolding unit
  unit_split i [] j lt = absurd (omega arith)
  unit_split i (g ∷ gs) zero lt = refl
  unit_split i (g ∷ gs) (suc j) lt = rw (unit_split i gs j (omega arith)) (simp append_assoc)

  length-unit-take :
      (gs : List (List Bytes)) (j : ℕ)
      → j < length gs
      → length (unit filter 0 (take (suc j) gs))
        ≡ length (unit filter 0 (take j gs)) + length (piece filter 0 (get_or gs j []))
  unfolding unit
  length-unit-take [] j lt = absurd (omega arith)
  length-unit-take (g ∷ gs) zero lt = omega (arith, length-append (piece filter 0 g) [])
  length-unit-take (g ∷ gs) (suc j) lt = omega (
    arith,
    length-unit-take gs j,
    length-append (piece filter 0 g) (unit filter 0 (take (suc j) gs)),
    length-append (piece filter 0 g) (unit filter 0 (take j gs)),
  )

  take-unit_list :
      (m n i : ℕ) (gs : List (List Bytes))
      → take m (unit_list filter n i gs) ≡ unit_list filter (min m n) i gs
  unfolding unit_list
  take-unit_list zero n i gs = let none : min 0 n ≡ 0 = omega arith in rw none refl
  take-unit_list (suc m) zero i gs = let none : min (suc m) 0 ≡ 0 = omega arith in rw none refl
  take-unit_list (suc m) (suc n) i gs =
      let one_less : min (suc m) (suc n) ≡ suc (min m n) = omega arith in
      rw (one_less, take-unit_list m n (i + 1) gs) refl

module _ (policy : FilterPolicy) (is : IsFilterPolicy policy) where
  length-piece :
      (i : ℕ) (g : List Bytes) → length (piece is.filter i g) ≡ length (piece is.filter 0 g)
  unfolding piece
  length-piece i [] = refl
  length-piece i (k ∷ ks) = is.same_size i (k ∷ ks)

  length-unit :
      (i : ℕ) (gs : List (List Bytes)) → length (unit is.filter i gs) ≡ length (unit is.filter 0 gs)
  unfolding unit
  length-unit i [] = refl
  length-unit i (g ∷ gs) = omega (
    arith,
    length-append (piece is.filter i g) (unit is.filter i gs),
    length-append (piece is.filter 0 g) (unit is.filter 0 gs),
    length-piece i g,
    length-unit i gs,
  )

  -- The part of a unit that is a group's filter.
  cut_piece :
      (i : ℕ) (gs : List (List Bytes)) (j start limit : ℕ)
      → j < length gs
      → start ≡ length (unit is.filter 0 (take j gs))
      → limit ≡ start + length (piece is.filter 0 (get_or gs j []))
      → take (limit - start) (drop start (unit is.filter i gs)) ≡ piece is.filter i (get_or gs j [])
  cut_piece i gs j start limit lt s l =
      let front = unit is.filter i (take j gs) in
      let p = piece is.filter i (get_or gs j []) in
      let rest = unit is.filter i (drop (suc j) gs) in
      rw
        (drop_behind front (p ++ rest) (unit is.filter i gs) {n = start}
          (unit_split is.filter i gs j lt) (omega (arith, length-unit i (take j gs))))
        (take_of_append p rest (omega (arith, length-piece i (get_or gs j []))))

  piece_match :
      (i : ℕ) (k : Bytes) (g : List Bytes)
      → length g ≤ is.limit
      → Among k g
      → policy.key_may_match k (piece is.filter i g) i ≡ true
  unfolding piece
  piece_match i k [] few m = absurd m
  piece_match i k (x ∷ g) few m = is.finds i k (x ∷ g) few m

  -- Every unit has the group's filter.
  units_match-unit_list :
      (m i : ℕ) (k : Bytes) (gs : List (List Bytes)) (j start limit : ℕ)
      → j < length gs
      → start ≡ length (unit is.filter 0 (take j gs))
      → limit ≡ start + length (piece is.filter 0 (get_or gs j []))
      → length (get_or gs j []) ≤ is.limit
      → Among k (get_or gs j [])
      → units_match policy k start limit i (unit_list is.filter m i gs) ≡ true
  unfolding units_match unit_list
  units_match-unit_list zero i k gs j start limit lt s l few among = refl
  units_match-unit_list (suc m) i k gs j start limit lt s l few among =
      rw (cut_piece i gs j start limit lt s l, piece_match i k (get_or gs j []) few among)
        (units_match-unit_list m (i + 1) k gs j start limit lt s l few among)

  get_or_beyond :
      (gs : List (List Bytes)) (j : ℕ) (k : Bytes) → Among k (get_or gs j []) → j < length gs
  get_or_beyond [] j k m = absurd m
  get_or_beyond (g ∷ gs) zero k m = omega arith
  get_or_beyond (g ∷ gs) (suc j) k m = omega (arith, get_or_beyond gs j k m)

  -- A key of a group passes the filters of the group, at every offset of its range.
  key_may_match-Opened :
      (r : FilterBlockReader) (gs : List (List Bytes)) (rest : Bytes) (m o : ℕ) (k : Bytes)
      → r.base_lg ≡ 11
      → r.num ≡ length gs
      → r.disk_size ≡ length (unit is.filter 0 gs)
      → r.offset ≡ table (ends is.filter gs 0) ++ rest
      → r.filter_units ≡ unit_list is.filter m 0 gs
      → length (unit is.filter 0 gs) < 2 ^ 32
      → length (get_or gs (o / filter_base) []) ≤ is.limit
      → Among k (get_or gs (o / filter_base) [])
      → key_may_match policy r o k ≡ true
  unfolding key_may_match
  key_may_match-Opened r gs rest m o k lg num sz offset units small few among =
      let j = o / filter_base in
      let inside : j < length gs = get_or_beyond gs j k among in
      let os = ends is.filter gs 0 in
      let os = ends is.filter gs 0 in
      let front = length (unit is.filter 0 (take j gs)) in
      let behind = length (unit is.filter 0 (take (suc j) gs)) in
      let whole = length (unit is.filter 0 gs) in
      let entries = length-ends is.filter gs 0 in
      let start : decode_fixed32 (drop (j * 4) (table os ++ rest)) ≡ front =
        decode_table os rest j (ends-IsU32 is.filter gs 0) (omega arith)
        ∙ get_or-ends is.filter gs 0 j (omega arith) (omega arith)
        ∙ omega arith in
      let next : j * 4 + 4 ≡ suc j * 4 = omega arith in
      let limit : decode_fixed32 (drop (j * 4 + 4) (table os ++ rest)) ≡ behind = rw next (
        decode_table os rest (suc j) (ends-IsU32 is.filter gs 0) (omega arith)
        ∙ get_or-ends is.filter gs 0 (suc j) (omega arith) (omega arith)
        ∙ omega arith) in
      let p = piece is.filter 0 (get_or gs j []) in
      let size : behind ≡ front + length p = length-unit-take is.filter gs j inside in
      let cut = ap length (unit_split is.filter 0 gs j inside) in
      let within : ltb j (length gs) ≡ true = ground arith in
      let rising : leb front behind ≡ true = ground arith in
      let last : leb behind whole ≡ true = ground (
        arith,
        cut,
        length-append (unit is.filter 0 (take j gs)) (p ++ unit is.filter 0 (drop (suc j) gs)),
        length-append p (unit is.filter 0 (drop (suc j) gs)),
      ) in
      rw (key_may_match, lg, num, offset, start, limit, sz, within, rising, last, units)
        (units_match-unit_list m 0 k gs j front behind inside refl size few among)

  group_closed : (hs : List (List Bytes)) (j : ℕ) → group hs [] j ≡ get_or hs j []
  group_closed [] zero = refl
  group_closed [] (suc j) = refl
  group_closed (h ∷ hs) zero = refl
  group_closed (h ∷ hs) (suc j) = group_closed hs j

  -- A builder that has closed its groups, and the reader of what it finishes.
  served :
      (b : FilterBlockBuilder) (hs : List (List Bytes)) (memory : FilterBlockReader)
      (place file loaded o : ℕ) (key : Bytes)
      → Holds is.filter b hs []
      → total hs ≤ is.limit
      → length (get_or b.filter_units 0 []) < 2 ^ 32
      → place < 2 ^ 64
      → Among key (get_or hs (o / filter_base) [])
      → key_may_match policy
          (record (new_reader memory (finish b place (length (get_or b.filter_units 0 []))) file) {
            filter_units = take loaded b.filter_units;
          })
          o
          key
        ≡ true
  unfolding unit_list
  served b hs memory place file loaded o key holds few small in_file among =
      let first : get_or b.filter_units 0 [] ≡ unit is.filter 0 hs = rw holds.units_held refl in
      let size : ℕ = length (get_or b.filter_units 0 []) in
      let size_is : size ≡ length (unit is.filter 0 hs) = ap length first in
      let (lg, num, sz, contents, at_place, init, all) =
        new_reader_fields memory b place size file holds.result_empty small in_file in
      let last : unit_size b.filter_units ≡ (0 + length (unit is.filter 0 hs)) % 2 ^ 32 =
        omega arith in
      let bytes : finish b place size ≡ table (ends is.filter hs 0) ++ tail place size =
        finish-table b place size holds.result_empty ∙ rw (holds.offsets_held, last) refl in
      let loaded_units : take loaded b.filter_units ≡ unit_list is.filter (min loaded 6) 0 hs =
        rw holds.units_held (take-unit_list is.filter loaded 6 0 hs) in
      let numbers : length b.filter_offsets ≡ length hs =
        rw holds.offsets_held (length-offsets is.filter 0 hs) in
      key_may_match-Opened
        (record (new_reader memory (finish b place size) file) {
          filter_units = take loaded b.filter_units;
        })
        hs (tail place size) (min loaded 6) o key lg (num ∙ numbers) (sz ∙ size_is)
        (contents ∙ bytes) loaded_units (omega arith)
        (omega (arith, length-get_or hs (o / filter_base))) among

module _ (policy : FilterPolicy) (is : IsFilterPolicy policy) where
  unit_list-All :
      (m i : ℕ) (gs : List (List Bytes))
      → All (λ u. length u ≡ length (unit is.filter 0 gs)) (unit_list is.filter m i gs)
  unfolding unit_list
  unit_list-All zero i gs = tt
  unit_list-All (suc m) i gs = (length-unit policy is i gs, unit_list-All m (i + 1) gs)

  -- The units of a finished builder: they are six, of one length.
  pub units_of_run :
      (blocks : List (ℕ × List Bytes))
      → IsRising 0 blocks
      → let b = return_filters policy (run_blocks policy new_builder blocks) in
        (b.result ≡ [])
        × All (λ u. length u ≡ length (get_or b.filter_units 0 [])) b.filter_units
        × (length b.filter_units ≡ 6)
  unfolding unit_list
  units_of_run blocks rising =
      let (closed, later, found) =
        run_blocks-Later policy is blocks 0 new_builder [] [] (new_builder-Holds is.filter)
          (omega arith) rising in
      let (hs, holds, grows, count) =
        return_filters-Holds policy is (run_blocks policy new_builder blocks) later.gs' later.ks'
          later.holds in
      (holds.result_empty, rw holds.units_held (unit_list-All 6 0 hs), rw holds.units_held refl)

-- No false negative: a table's keys are given to the builder block by block, with offsets that do not fall, and not more than
-- the policy's limit; its bytes are opened by a reader, and any number of the units is loaded. Then every key of a block
-- passes at the block's offset.
pub key_may_match-run_blocks :
    (policy : FilterPolicy) (is : IsFilterPolicy policy) (blocks : List (ℕ × List Bytes))
    (memory : FilterBlockReader) (place file loaded o : ℕ) (key : Bytes)
    → keys_number blocks ≤ is.limit
    → IsRising 0 blocks
    → InBlock o key blocks
    → length
        (get_or (return_filters policy (run_blocks policy new_builder blocks)).filter_units 0 [])
      < 2 ^ 32
    → place < 2 ^ 64
    → let b = return_filters policy (run_blocks policy new_builder blocks) in
      let r = new_reader memory (finish b place (length (get_or b.filter_units 0 []))) file in
      key_may_match policy (record r { filter_units = take loaded b.filter_units }) o key ≡ true
unfolding total
key_may_match-run_blocks policy is blocks memory place file loaded o key few rising within small
      in_file =
    let (closed, later, found) =
      run_blocks-Later policy is blocks 0 new_builder [] [] (new_builder-Holds is.filter)
        (omega arith) rising in
    let (hs, holds, grows, count) =
      return_filters-Holds policy is (run_blocks policy new_builder blocks) later.gs' later.ks'
        later.holds in
    let among = grows (o / filter_base) key (found o key within) in
    served policy is (return_filters policy (run_blocks policy new_builder blocks)) hs memory place
      file loaded o key holds (omega (arith, count, later.count)) small in_file
      (rw (← group_closed policy is hs (o / filter_base)) among)
