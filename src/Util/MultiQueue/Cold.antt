-- ===== src/Util/MultiQueue/Cold.antt =====
-- The search for cold filters of util/multi_queue.cc.
use rally_db.Prelude.{sub64, ℕ, zero, suc, List, [], ◌∷◌, ◌++◌, ltb, ◌==◌, if◌then◌else◌, get_or}
use rally_db.Table.FilterBlock.{all_filter_units_number}
use rally_db.Table.FilterBlock.Reader.{FilterBlockReader, one_unit_size, is_cold}
use mathlib.Core.List.{reverse}
use rally_db.Util.MultiQueue.{MultiQueue}

-- `if (reader->AccessTime() != 0)`: a filter that was loaded for an iterator only is passed over. The
-- memory that is still to be freed is in 64 bits.
unfoldable pub take_cold : FilterBlockReader → ℕ → (memory : ℕ) → List ℕ → ℕ × List ℕ
take_cold reader e memory filters =
    if reader.access_time == 0
    then (memory, filters)
    else (sub64 memory (one_unit_size reader), filters ++ (e ∷ []))

-- `SingleQueue::FindColdFilter`, over the handles from `lru_` to `mru_`. The body runs before the test
-- `memory > 0`.
unfoldable pub find_cold_in :
    (ℕ → FilterBlockReader) → (sn : ℕ) → List ℕ → (memory : ℕ) → List ℕ → ℕ × List ℕ
find_cold_in readers sn [] memory filters = (memory, filters)
find_cold_in readers sn (e ∷ es) memory filters =
    let taken = take_cold (readers e) e memory filters in
    let rest = find_cold_in readers sn es taken.0 taken.1 in
    if is_cold (readers e) sn then (if ltb 0 taken.0 then rest else taken) else (memory, filters)

-- The loop of `InternalMultiQueue::FindColdFilter` over the queues from number `i` down to 1.
unfoldable pub find_cold_from : MultiQueue → (sn i : ℕ) → (memory : ℕ) → List ℕ → ℕ × List ℕ
find_cold_from m sn zero memory filters = (memory, filters)
find_cold_from m sn (suc i) memory filters =
    let found = find_cold_in m.readers sn (reverse (get_or m.queues (suc i) [])) memory filters in
    let rest = find_cold_from m sn i found.0 found.1 in
    if ltb 0 memory then rest else (memory, filters)

unfoldable pub find_cold_filter : MultiQueue → (memory sn : ℕ) → List ℕ
find_cold_filter m memory sn =
    let found = find_cold_from m sn all_filter_units_number memory [] in
    if ltb 0 found.0 then [] else found.1
