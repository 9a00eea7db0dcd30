-- ===== src/Util/MultiQueue/Methods.antt =====
-- The other methods of `InternalMultiQueue`, of util/multi_queue.cc.
use rally_db.Prelude.{
  sub64, bit_and, ℕ, ◌+◌, ◌-◌, ◌*◌, ◌/◌, ◌%◌, ◌^◌, [], ◌∷◌, Bool, true, Option, none, some, ltb,
  leb, if◌then◌else◌, length, drop,
}
use rally_db.Util.Status.{Status}
use rally_db.Util.Coding.{Bytes, decode_fixed64}
use rally_db.Table.FilterBlock.{FilterPolicy}
use rally_db.Table.FilterBlock.Reader.{
  update_state, filter_units_number, load_filter_number, one_unit_size, size, key_may_match,
  init_load_filter, clean_filter, go_back_to_init_filter, set_access_time,
}
use rally_db.Util.MultiQueue.{
  MultiQueue, unlink, set_reader, move_handle, find_handle, erase_handle,
}
use rally_db.Util.MultiQueue.Adjust.{Double, do_adjustment}

-- `ParseKey`: the sequence number of an internal key.
unfoldable pub parse_key : Bytes → Option ℕ
parse_key key =
    let n = length key in
    let num = decode_fixed64 (drop (n - 8) key) in
    if ltb n 8 then none else if leb (bit_and num 255) 1 then some (num / 2 ^ 8) else none

module _ (double : Double) (false_positive_rate : double.Number)
    (read_block : ℕ → ℕ → ℕ → Status × Bytes) where
  -- `UpdateHandle`: the queues after the access, and whether the key may be in the table. A null
  -- handle is `none`.
  unfoldable pub update_handle :
      FilterPolicy → MultiQueue → Option ℕ → (block_offset : ℕ) → Bytes → MultiQueue × Bool
  update_handle policy m none block_offset key = (m, true)
  update_handle policy m (some h) block_offset key = elim (parse_key key) [
    | none ↦ (m, true)
    | some sn ↦
        let updated = set_reader m h (update_state (m.readers h) sn) in
        let m' = do_adjustment double false_positive_rate read_block updated h sn in
        (m', key_may_match policy (m'.readers h) block_offset key)
  ]

-- The background thread runs `LoadFilterBGWork` on the reader that was scheduled first.
unfoldable pub background_work : (ℕ → ℕ → ℕ → Status × Bytes) → MultiQueue → MultiQueue
background_work read_block m = elim m.scheduled [
  | [] ↦ m
  | h ∷ rest ↦
      let (s, r) = init_load_filter read_block (m.readers h) in
      record (set_reader m h r) { scheduled = rest }
]

unfoldable pub back_to_init :
    (ℕ → ℕ → ℕ → Status × Bytes) → MultiQueue → Option ℕ → Option ℕ → MultiQueue
back_to_init read_block m none file = m
back_to_init read_block m (some h) file =
    let reader = m.readers h in
    let filter_number = filter_units_number reader in
    let init_filter_number = load_filter_number reader in
    let (s, r) = go_back_to_init_filter read_block reader file in
    let moved = set_reader (move_handle m h init_filter_number) h r in
    record moved {
      usage = (m.usage + sub64 init_filter_number filter_number * one_unit_size reader) % 2 ^ 64;
    }

unfoldable pub release : MultiQueue → Option ℕ → MultiQueue
release m none = m
release m (some h) =
    let (s, r) = clean_filter (m.readers h) in
    record (set_reader m h r) { usage = sub64 m.usage (size (m.readers h)) }

unfoldable pub erase : MultiQueue → Bytes → MultiQueue
erase m key = elim (find_handle key m.handles) [
  | none ↦ m
  | some h ↦ record m {
    queues = unlink h m.queues;
    handles = erase_handle key m.handles;
    usage = sub64 m.usage (size (m.readers h));
  }
]

abbrev pub total_charge : MultiQueue → ℕ
total_charge m = m.usage

-- `SetAccessTime` and `GetAccessTime`; an unknown key fails an assertion, and changes nothing.
unfoldable pub update_access_time : MultiQueue → Bytes → ℕ → MultiQueue
update_access_time m key access_time = elim (find_handle key m.handles) [
  | none ↦ m
  | some h ↦ set_reader m h (set_access_time (m.readers h) access_time)
]

unfoldable pub get_access_time : MultiQueue → Bytes → ℕ
get_access_time m key = elim (find_handle key m.handles) [
  | none ↦ 0
  | some h ↦ (m.readers h).access_time
]
