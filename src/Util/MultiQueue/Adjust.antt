-- ===== src/Util/MultiQueue/Adjust.antt =====
-- Adjustments, of util/multi_queue.cc: one more unit for a hot filter, paid by cold ones.
use rally_db.Prelude.{
  sub64, ℕ, ◌+◌, ◌-◌, ◌%◌, ◌^◌, List, [], ◌∷◌, Bool, true, false, ◌&&◌, ltb, leb, ◌==◌,
  if◌then◌else◌, length,
}
use rally_db.Util.Status.{Status, ok, corruption, is_ok}
use rally_db.Util.Coding.{Bytes}
use rally_db.Table.FilterBlock.{all_filter_units_number}
use rally_db.Table.FilterBlock.Reader.{
  FilterBlockReader, filter_units_number, one_unit_size, can_be_loaded, can_be_evict, load_filter,
  evict_filter,
}
use rally_db.Util.MultiQueue.{MultiQueue, set_reader, move_handle}
use rally_db.Util.MultiQueue.Cold.{find_cold_filter}

-- The `double`s of `IOs`, `LoadIOs` and `EvictIOs`. Their arithmetic is left open: a type with
-- the operations that the code uses.
pub record Double : Type 1 where
  pub Number : Type 0
  pub of_ℕ : ℕ → Number
  pub plus : Number → Number → Number
  pub times : Number → Number → Number
  pub pow : Number → ℕ → Number
  pub less : Number → Number → Bool

module _ (double : Double) (false_positive_rate : double.Number) where
  open double use {Number, of_ℕ, plus, times, pow, less}

  -- `IOs`, `LoadIOs` and `EvictIOs` of the reader.
  abbrev expected_ios : FilterBlockReader → ℕ → Number
  expected_ios r units = times (pow false_positive_rate units) (of_ℕ r.access_time)

  abbrev pub ios : FilterBlockReader → Number
  ios r = expected_ios r (filter_units_number r)

  abbrev pub load_ios : FilterBlockReader → Number
  load_ios r = expected_ios r (filter_units_number r + 1)

  abbrev pub evict_ios : FilterBlockReader → Number
  evict_ios r = expected_ios r (filter_units_number r - 1)

  -- The sum of a loop over the cold readers.
  unfoldable pub sum_ios : (ℕ → Number) → Number → List ℕ → Number
  sum_ios f acc [] = acc
  sum_ios f acc (h ∷ hs) = sum_ios f (plus acc (f h)) hs

  unfoldable pub all_can_be_evicted : (ℕ → FilterBlockReader) → List ℕ → Bool
  all_can_be_evicted readers [] = true
  all_can_be_evicted readers (h ∷ hs) = can_be_evict (readers h) && all_can_be_evicted readers hs

  -- `CanBeAdjusted`, without the counting of `adjustment_time_`.
  unfoldable pub can_be_adjusted : MultiQueue → List ℕ → ℕ → Bool
  can_be_adjusted m colds hot =
      let zero' = of_ℕ 0 in
      let original_ios =
        plus (sum_ios (λ h. ios (m.readers h)) zero' colds) (ios (m.readers hot)) in
      let adjusted_ios =
        plus (sum_ios (λ h. evict_ios (m.readers h)) zero' colds) (load_ios (m.readers hot)) in
      all_can_be_evicted m.readers colds && less adjusted_ios original_ios

  module _ (read_block : ℕ → ℕ → ℕ → Status × Bytes) where
    unfoldable pub load_handle : MultiQueue → ℕ → Status × MultiQueue
    load_handle m h =
        let number = filter_units_number (m.readers h) in
        if ltb number all_filter_units_number
        then (let (s, r) = load_filter read_block (m.readers h) in
            (s, set_reader (move_handle m h (number + 1)) h r))
        else (corruption "There is a full reader!", m)

    unfoldable pub evict_handle : MultiQueue → ℕ → Status × MultiQueue
    evict_handle m h =
        let number = filter_units_number (m.readers h) in
        if leb 1 number
        then (let (s, r) = evict_filter (m.readers h) in
            (s, set_reader (move_handle m h (number - 1)) h r))
        else (corruption "There is not filter units to evict!", m)

    -- The loop of `ApplyAdjustment` over the cold handles.
    unfoldable pub evict_all : MultiQueue → List ℕ → Status × MultiQueue
    evict_all m [] = (ok, m)
    evict_all m (h ∷ hs) =
        let (s, m') = evict_handle m h in
        elim (is_ok s) [ true ↦ evict_all m' hs | false ↦ (s, m') ]

    -- `ApplyAdjustment`: a failure takes back the count of the adjustment, and nothing else.
    unfoldable pub apply_adjustment : MultiQueue → List ℕ → ℕ → MultiQueue
    apply_adjustment m colds hot =
        let (s, m') = evict_all m colds in
        let (s', m'') = load_handle m' hot in
        if is_ok s
        then (if is_ok s'
            then m''
            else record m'' { adjustment_time = sub64 m''.adjustment_time 1 })
        else record m' { adjustment_time = sub64 m'.adjustment_time 1 }

    unfoldable pub adjustment : MultiQueue → (hot sn : ℕ) → MultiQueue
    adjustment m hot sn =
        let colds = find_cold_filter m (one_unit_size (m.readers hot)) sn in
        let counted : MultiQueue = record m {
          adjustment_time = (m.adjustment_time + 1) % 2 ^ 64;
        } in
        if can_be_loaded (m.readers hot)
        then (if length colds == 0
            then m
            else if can_be_adjusted m colds hot
            then apply_adjustment counted colds hot
            else m)
        else m

    -- `DoAdjustment` of a handle whose reader is not null: to the front of its queue, then the
    -- adjustment.
    unfoldable pub do_adjustment : MultiQueue → (h sn : ℕ) → MultiQueue
    do_adjustment m h sn = adjustment (move_handle m h (filter_units_number (m.readers h))) h sn
