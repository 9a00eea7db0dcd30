-- ===== src/Table/Block/Seek.antt =====
-- table/block.cc: the moves of `Block::Iter`. A loop that calls `ParseNextKey` has the length of the
-- block for fuel: an entry takes three bytes at least, so it is enough unless two lengths of an entry
-- wrap around and lead back to where the scan has been. `none` means that it ran out.
use rally_db.Prelude.{
  ℕ, zero, suc, ◌+◌, ◌-◌, ◌/◌, Bool, true, false, ◌&&◌, Option, none, some, ltb, leb, ◌==◌,
  if◌then◌else◌, length, take, drop,
}
use rally_db.Util.Coding.{Bytes}
use rally_db.Util.Comparator.{is_negative, negative, null, positive}
use rally_db.Table.Block.Iter.{
  Iter, is_valid, next_entry_offset, get_restart_point, seek_to_restart_point, corruption_error,
  decode_entry, parse_next_key,
}

unfoldable pub next : Iter → Iter
next it = (parse_next_key it).1

unfoldable pub seek_to_first : Iter → Iter
seek_to_first it = (parse_next_key (seek_to_restart_point it 0)).1

-- `while (ParseNextKey() && NextEntryOffset() < limit)`
unfoldable pub skip_until : ℕ → (limit : ℕ) → Iter → Option Iter
skip_until zero limit it = none
skip_until (suc fuel) limit it =
    let (found, it') = parse_next_key it in
    let rest = skip_until fuel limit it' in
    if found && ltb (next_entry_offset it') limit then rest else some it'

unfoldable pub seek_to_last : Iter → Option Iter
seek_to_last it =
    skip_until (suc (length it.contents)) it.restarts
      (seek_to_restart_point it (it.restarts_number - 1))

-- The first loop of `Prev`: the last restart point before `original`, from `restart_index_` down.
unfoldable pub restart_before : Iter → (original index : ℕ) → Option ℕ
restart_before it original zero = if leb original (get_restart_point it 0) then none else some 0
restart_before it original (suc index) =
    let rest = restart_before it original index in
    if leb original (get_restart_point it (suc index)) then rest else some (suc index)

unfoldable pub prev : Iter → Option Iter
prev it = elim (restart_before it it.current it.restart_index) [
  | none ↦ some (record it { current = it.restarts; restart_index = it.restarts_number })
  | some index ↦ skip_until (suc (length it.contents)) it.current (seek_to_restart_point it index)
]

-- The key at restart point `mid`, or `none` where `Seek` finds an error.
unfoldable pub restart_key : Iter → ℕ → Option Bytes
restart_key it mid =
    elim (decode_entry (drop (get_restart_point it mid) (take it.restarts it.contents))) [
      | none ↦ none
      | some h ↦ if h.shared == 0 then some (take h.non_shared h.tail) else none
    ]

-- The binary search of `Seek`: the restart point, or that an entry is broken. A round makes the range
-- smaller, so its length is enough fuel; with none left, `left` and `right` have met.
pub data Search : Type 0 where
  found_at : ℕ → Search
  broken : Search

unfoldable pub binary_search : ℕ → Iter → Bytes → (left right : ℕ) → Search
binary_search zero it target left right = found_at left
binary_search (suc fuel) it target left right =
    let mid = (left + right + 1) / 2 in
    elim (ltb left right) [
      | false ↦ found_at left
      | true ↦ elim (restart_key it mid) [
        | none ↦ broken
        | some mid_key ↦ elim (is_negative (it.comparator.cmp mid_key target)) [
          | true ↦ binary_search fuel it target mid right
          | false ↦ binary_search fuel it target left (mid - 1)
        ]
      ]
    ]

-- The linear search of `Seek`.
unfoldable pub linear_search : ℕ → Bytes → Iter → Option Iter
linear_search zero target it = none
linear_search (suc fuel) target it =
    let (found, it') = parse_next_key it in
    let rest = linear_search fuel target it' in
    if found && is_negative (it'.comparator.cmp it'.key target) then rest else some it'

-- `Seek` behind the comparison with the current key: the range, and whether that key is smaller.
unfoldable pub seek_range : Iter → Bytes → (left right : ℕ) → (smaller : Bool) → Option Iter
seek_range it target left right smaller = elim (binary_search (right - left) it target left right) [
  | broken ↦ some (corruption_error it)
  | found_at point ↦
      linear_search (suc (length it.contents)) target
        (if point == it.restart_index && smaller then it else seek_to_restart_point it point)
]

unfoldable pub seek : Iter → Bytes → Option Iter
seek it target =
    let whole = seek_range it target 0 (it.restarts_number - 1) false in
    if is_valid it
    then elim (it.comparator.cmp it.key target) [
      | negative ↦ seek_range it target it.restart_index (it.restarts_number - 1) true
      | positive ↦ seek_range it target 0 it.restart_index false
      | null ↦ some it
    ]
    else whole
