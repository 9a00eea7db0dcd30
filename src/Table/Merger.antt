-- ===== src/Table/Merger.antt =====
-- table/merger.cc: the merging iterator over any children. The wrapper of a child only caches what
-- the child's `Valid` and `key` give, so a child is the iterator itself. `current_` is an index.
pub mod Merge
pub mod Smallest
pub mod Walk
use rally_db.Prelude.{
  ℕ, zero, suc, List, [], ◌∷◌, Bool, true, false, ◌&&◌, not, Option, none, some, ◌==◌,
  if◌then◌else◌, map, get_elem?, set,
}
use rally_db.Util.Status.{Status, ok, is_ok}
use rally_db.Util.Coding.{Bytes}
use rally_db.Util.Comparator.{Sign, negative, null, positive, is_negative, is_positive}
use rally_db.Table.Iterator.{Iterator}

-- `enum Direction`
pub data Direction : Type 0 where
  forward reverse : Direction

pub record MergingIterator (S : Type 0) : Type 0 where
  pub children : List S
  pub current : Option ℕ
  pub direction : Direction

-- What the iterator is constructed with.
abbrev pub new_merging_iterator : {S : Type 0} → List S → MergingIterator S
new_merging_iterator children = record { children = children; current = none; direction = forward }

module _ {S : Type 0} (it : Iterator S) (order : Bytes → Bytes → Sign) where
  -- A round of the loop of `FindSmallest`.
  unfoldable pub smaller : ℕ → S → Option (ℕ × S) → Option (ℕ × S)
  smaller i child smallest =
      if it.valid child
      then (elim smallest [
        | none ↦ some (i, child)
        | some (j, s) ↦
            if is_negative (order (it.key child) (it.key s)) then some (i, child) else some (j, s)
      ])
      else smallest

  unfoldable pub smallest_loop : ℕ → List S → Option (ℕ × S) → Option (ℕ × S)
  unfolding smaller
  smallest_loop i [] smallest = smallest
  smallest_loop i (child ∷ children) smallest =
      smallest_loop (suc i) children (smaller i child smallest)

  abbrev pub index_of : Option (ℕ × S) → Option ℕ
  index_of none = none
  index_of (some (i, child)) = some i

  unfoldable pub find_smallest : MergingIterator S → MergingIterator S
  find_smallest m = record m { current = index_of (smallest_loop 0 m.children none) }

  -- A round of the loop of `FindLargest`, which runs from the last child to the first.
  unfoldable pub larger : ℕ → S → Option (ℕ × S) → Option (ℕ × S)
  larger i child largest =
      if it.valid child
      then (elim largest [
        | none ↦ some (i, child)
        | some (j, s) ↦
            if is_positive (order (it.key child) (it.key s)) then some (i, child) else some (j, s)
      ])
      else largest

  unfoldable pub largest_loop : ℕ → List S → Option (ℕ × S)
  unfolding larger
  largest_loop i [] = none
  largest_loop i (child ∷ children) = larger i child (largest_loop (suc i) children)

  unfoldable pub find_largest : MergingIterator S → MergingIterator S
  find_largest m = record m { current = index_of (largest_loop 0 m.children) }

  -- `Valid`
  unfoldable pub is_valid : MergingIterator S → Bool
  is_valid m = elim m.current [ none ↦ false | some i ↦ true ]

  current_child : MergingIterator S → Option S
  current_child m = elim m.current [ none ↦ none | some i ↦ get_elem? m.children i ]

  -- `key`. REQUIRES: Valid()
  unfoldable pub merging_key : MergingIterator S → Bytes
  unfolding current_child
  merging_key m = elim (current_child m) [ none ↦ [] | some child ↦ it.key child ]

  -- `value`. REQUIRES: Valid()
  unfoldable pub merging_value : MergingIterator S → Bytes
  unfolding current_child
  merging_value m = elim (current_child m) [ none ↦ [] | some child ↦ it.value child ]

  -- `status`: the first one that is not OK.
  first_error : List S → Status
  first_error [] = ok
  first_error (child ∷ children) =
      let rest = first_error children in if is_ok (it.status child) then rest else it.status child

  unfoldable pub merging_status : MergingIterator S → Status
  unfolding first_error
  merging_status m = first_error m.children

  unfoldable pub merging_seek_to_first : MergingIterator S → MergingIterator S
  merging_seek_to_first m =
      record (find_smallest (record m { children = map it.seek_to_first m.children })) {
        direction = forward;
      }

  unfoldable pub merging_seek_to_last : MergingIterator S → MergingIterator S
  merging_seek_to_last m =
      record (find_largest (record m { children = map it.seek_to_last m.children })) {
        direction = reverse;
      }

  unfoldable pub merging_seek : Bytes → MergingIterator S → MergingIterator S
  merging_seek target m =
      record (find_smallest (record m { children = map (it.seek target) m.children })) {
        direction = forward;
      }

  -- A child other than the current one, moved behind the key when the direction turns forwards.
  unfoldable pub put_behind : Bytes → S → S
  put_behind key child =
      let child' = it.seek key child in
      if it.valid child' && elim (order key (it.key child')) [ null ↦ true | _ ↦ false ]
      then it.next child'
      else child'

  -- The same in front of the key, when it turns backwards.
  unfoldable pub put_before : Bytes → S → S
  put_before key child =
      let child' = it.seek key child in
      if it.valid child' then it.prev child' else it.seek_to_last child'

  -- All children but the one at `current`.
  unfoldable pub others : ℕ → (S → S) → ℕ → List S → List S
  others current move i [] = []
  others current move i (child ∷ children) =
      (if i == current then child else move child) ∷ others current move (suc i) children

  at_current : ℕ → (S → S) → List S → List S
  at_current i move children = elim (get_elem? children i) [
    | none ↦ children
    | some child ↦ set children i (move child)
  ]

  -- REQUIRES: Valid()
  unfoldable pub merging_next : MergingIterator S → MergingIterator S
  unfolding at_current
  merging_next m = elim m.current [
    | none ↦ m
    | some i ↦
        let children : List S = elim m.direction [
          | forward ↦ m.children
          | reverse ↦ others i (put_behind (merging_key m)) 0 m.children
        ] in
        find_smallest (record m { children = at_current i it.next children; direction = forward })
  ]

  -- REQUIRES: Valid()
  unfoldable pub merging_prev : MergingIterator S → MergingIterator S
  unfolding at_current
  merging_prev m = elim m.current [
    | none ↦ m
    | some i ↦
        let children : List S = elim m.direction [
          | reverse ↦ m.children
          | forward ↦ others i (put_before (merging_key m)) 0 m.children
        ] in
        find_largest (record m { children = at_current i it.prev children; direction = reverse })
  ]

  abbrev pub merging_iterator : Iterator (MergingIterator S)
  merging_iterator = record {
    valid = is_valid;
    key = merging_key;
    value = merging_value;
    status = merging_status;
    seek_to_first = merging_seek_to_first;
    seek_to_last = merging_seek_to_last;
    seek = merging_seek;
    next = merging_next;
    prev = merging_prev;
  }
