-- ===== src/Util/MultiQueue.antt =====
-- include/leveldb/multi_queue.h and util/multi_queue.cc: the queues of loaded filters. Queue `i` holds
-- the handles of the readers with `i` loaded units, the most recently used first; an adjustment loads
-- one more unit of a hot reader in exchange for units of cold ones.
-- A `QueueHandle*` is a number, and the heap is the function `readers`. A `SingleQueue` is the list
-- of its handles from `mru_` to `lru_`. Each method runs under `mutex_`, hence as one step.
pub mod Cold
pub mod Adjust
pub mod Methods
pub mod Selection
pub mod Memory
use rally_db.Prelude.{
  ℕ, zero, suc, ◌+◌, ◌-◌, ◌*◌, ◌/◌, ◌%◌, ◌^◌, List, [], ◌∷◌, ◌++◌, map, Bool, true, false, ◌&&◌,
  not, Option, none, some, ltb, leb, ◌==◌, if◌then◌else◌, length, get_or, set, drop,
}
use rally_db.Util.Status.{Status, ok, corruption}
use rally_db.Util.Coding.{Bytes, decode_fixed64}
use rally_db.Table.FilterBlock.{FilterPolicy, all_filter_units_number}
use rally_db.Table.FilterBlock.Reader.{
  FilterBlockReader, update_state, filter_units_number, load_filter_number, one_unit_size, size,
  is_cold, can_be_loaded, can_be_evict, key_may_match, load_filter, evict_filter, init_load_filter,
  clean_filter, go_back_to_init_filter, set_access_time,
}
use mathlib.Core.List.{reverse}
use rally_db.Prelude.Bytes.{same}

pub record MultiQueue : Type 0 where
  pub queues : List (List ℕ)
  pub readers : ℕ → FilterBlockReader
  pub handles : List (Bytes × ℕ)
  pub usage : ℕ
  pub adjustment_time : ℕ
  pub scheduled : List ℕ
  pub next : ℕ

unfoldable pub new_multi_queue : (ℕ → FilterBlockReader) → MultiQueue
new_multi_queue memory = record {
  queues = [] ∷ [] ∷ [] ∷ [] ∷ [] ∷ [] ∷ [] ∷ [];
  readers = memory;
  handles = [];
  usage = 0;
  adjustment_time = 0;
  scheduled = [];
  next = 0;
}

-- `Queue_Remove` on one list.
unfoldable pub remove : ℕ → List ℕ → List ℕ
remove h [] = []
remove h (e ∷ es) = if e == h then es else e ∷ remove h es

-- `Queue_Remove` unlinks a handle from its neighbours, whichever queue it is called on.
unfoldable pub unlink : ℕ → List (List ℕ) → List (List ℕ)
unlink h queues = map (remove h) queues

-- `Queue_Append`: behind `mru_`.
unfoldable pub link : ℕ → ℕ → List (List ℕ) → List (List ℕ)
link number h queues = set queues number (h ∷ get_or queues number [])

abbrev pub set_reader : MultiQueue → ℕ → FilterBlockReader → MultiQueue
set_reader m h r = record m { readers = λ g. if g == h then r else m.readers g }

-- `queues_[from]->Remove(handle); queues_[to]->Append(handle);`
unfoldable pub move_handle : MultiQueue → ℕ → ℕ → MultiQueue
move_handle m h to = record m { queues = link to h (unlink h m.queues) }

unfoldable pub find_handle : Bytes → List (Bytes × ℕ) → Option ℕ
find_handle key [] = none
find_handle key ((k, h) ∷ rest) = if same k key then some h else find_handle key rest

-- `map_.emplace`: a key that is there keeps its handle.
unfoldable pub emplace : Bytes → ℕ → List (Bytes × ℕ) → List (Bytes × ℕ)
emplace key h handles = elim (find_handle key handles) [
  | none ↦ (key, h) ∷ handles
  | some _ ↦ handles
]

unfoldable pub erase_handle : Bytes → List (Bytes × ℕ) → List (Bytes × ℕ)
erase_handle key [] = []
erase_handle key ((k, h) ∷ rest) = if same k key then rest else (k, h) ∷ erase_handle key rest

-- `Insert` of a reader that is not null; the new node is the next number. The background thread is
-- handed the reader to load.
unfoldable pub insert : MultiQueue → Bytes → FilterBlockReader → MultiQueue × ℕ
insert m key reader =
    let h = m.next in
    (
      record (set_reader m h reader) {
        queues = link (load_filter_number reader) h m.queues;
        handles = emplace key h m.handles;
        usage = (m.usage + load_filter_number reader * one_unit_size reader) % 2 ^ 64;
        scheduled = m.scheduled ++ (h ∷ []);
        next = h + 1;
      },
      h,
    )

unfoldable pub lookup : MultiQueue → Bytes → Option ℕ
lookup m key = find_handle key m.handles
