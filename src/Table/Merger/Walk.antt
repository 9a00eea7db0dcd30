-- ===== src/Table/Merger/Walk.antt =====
-- A merging iterator over children that keep the promises of the interface keeps them itself, of the
-- merge of their entries.
use rally_db.Prelude.{
  ℕ, ◌+◌, ◌<◌, List, [], ◌∷◌, ◌≡◌, refl, true, false, Option, none, some, arith, set, subst, ap,
  ◌∙◌, map, length, All,
}
use mathlib.Core.List.{Perm, flatten}
use rally_db.Util.Coding.{Bytes}
use rally_db.Util.Comparator.{Sign}
use rally_db.Table.Iterator.{
  Iterator, Entry, IsForward, entries_from, length-entries_from, walk, walk-entries,
}
use rally_db.Table.Merger.{
  MergingIterator, forward, smallest_loop, find_smallest, index_of, is_valid, merging_key,
  merging_value, merging_next, merging_seek, merging_seek_to_first, merging_iterator,
}
use rally_db.Table.Merger.Merge.{
  IsOrder, merge_all, merge_all-entries_from, merge_all-perm, merge_all-IsRising, IsRising,
}
use rally_db.Table.Merger.Smallest.{Standing, Picked, pick, pick_lem, smallest_loop-pick}

module _ {S : Type 0} (it : Iterator S) (order : Bytes → Bytes → Sign) (law : IsOrder order)
    (Over : S → List Entry → Type 0) (At : S → List Entry → List Entry → Type 0)
    (child_law : IsForward it order Over At) where
  abbrev pub OverAll : List S → List (List Entry) → Type 0
  OverAll [] [] = Unit {0}
  OverAll (c ∷ cs) (all ∷ alls) = Over c all × OverAll cs alls
  OverAll _ _ = ⊥

  abbrev Stand : List S → List (List Entry) → List (List Entry) → Type 0
  Stand = Standing it order law Over At child_law

  abbrev pub MergeOver : MergingIterator S → List Entry → Type 0
  MergeOver m all =
      (alls : List (List Entry)) × OverAll m.children alls × (merge_all order alls ≡ all)

  -- `current_` is the smallest child.
  abbrev IsCurrent : MergingIterator S → Type 0
  IsCurrent m =
      (m.direction ≡ forward)
      × (m.current ≡ index_of it order (smallest_loop it order 0 m.children none))

  abbrev pub MergeAt : MergingIterator S → List Entry → List Entry → Type 0
  MergeAt m all es =
      (alls : List (List Entry)) × (ess : List (List Entry)) × Stand m.children alls ess
      × (merge_all order alls ≡ all)
      × (merge_all order ess ≡ es)
      × IsCurrent m

  picked :
      (cs : List S) (alls ess : List (List Entry)) (es : List Entry)
      → Stand cs alls ess
      → merge_all order ess ≡ es
      → Picked it order law Over At child_law 0 cs alls es
  picked cs alls ess es stand e =
      subst (Picked it order law Over At child_law 0 cs alls) e
        (pick_lem it order law Over At child_law 0 cs alls ess stand)

  smallest_is :
      (cs : List S) (r : Option (ℕ × S))
      → pick it order law Over At child_law 0 cs ≡ r
      → smallest_loop it order 0 cs none ≡ r
  smallest_is cs r e = smallest_loop-pick it order law Over At child_law 0 cs none ∙ e

  merge_end :
      (m : MergingIterator S) (all : List Entry) → MergeAt m all [] → is_valid it order m ≡ false
  unfolding is_valid
  merge_end m all (alls, ess, stand, whole, left, (way, cur)) =
      ground (arith, smallest_is m.children none (picked m.children alls ess [] stand left))

  merge_entry :
      (m : MergingIterator S) (all : List Entry) (e : Entry) (es : List Entry)
      → MergeAt m all (e ∷ es)
      → (is_valid it order m ≡ true)
        × (merging_key it order m ≡ e.0)
        × (merging_value it order m ≡ e.1)
        × MergeAt (merging_next it order m) all es
  unfolding is_valid merging_key merging_value merging_next find_smallest
  merge_entry m all e es (alls, ess, stand, whole, left, (way, cur)) =
      let (j, c, is, at, (key, val), rest, stands, merged) =
        picked m.children alls ess (e ∷ es) stand left in
      let here : m.current ≡ some j = ground (arith, smallest_is m.children (some (0 + j, c)) is) in
      let moved = set m.children j (it.next c) in
      let m' = record m {
        children = moved;
        direction = forward;
        current = index_of it order (smallest_loop it order 0 moved none);
      } in
      let next_is : merging_next it order m ≡ m' = ground arith in
      (
        ground arith,
        ground arith,
        ground arith,
        rw next_is (alls, rest, stands, whole, merged, (refl, refl)),
      )

  Stand-seek_to_first :
      (cs : List S) (alls : List (List Entry))
      → OverAll cs alls
      → Stand (map it.seek_to_first cs) alls alls
  Stand-seek_to_first [] [] h = tt
  Stand-seek_to_first [] (all ∷ alls) h = elim h [ ]
  Stand-seek_to_first (c ∷ cs) [] h = elim h [ ]
  Stand-seek_to_first (c ∷ cs) (all ∷ alls) h =
      (child_law.at_first c all h.0, Stand-seek_to_first cs alls h.1)

  Stand-seek :
      (target : Bytes) (cs : List S) (alls : List (List Entry))
      → OverAll cs alls
      → Stand (map (it.seek target) cs) alls (map (entries_from order target) alls)
  Stand-seek target [] [] h = tt
  Stand-seek target [] (all ∷ alls) h = elim h [ ]
  Stand-seek target (c ∷ cs) [] h = elim h [ ]
  Stand-seek target (c ∷ cs) (all ∷ alls) h =
      (child_law.at_target c all target h.0, Stand-seek target cs alls h.1)

  OverAll-Stand : (cs : List S) (alls ess : List (List Entry)) → Stand cs alls ess → OverAll cs alls
  OverAll-Stand [] [] [] h = tt
  OverAll-Stand [] [] (x ∷ ess) h = elim h [ ]
  OverAll-Stand [] (x ∷ alls) ess h = elim h [ ]
  OverAll-Stand (c ∷ cs) [] ess h = elim h [ ]
  OverAll-Stand (c ∷ cs) (all ∷ alls) [] h = elim h [ ]
  OverAll-Stand (c ∷ cs) (all ∷ alls) (es ∷ ess) h =
      (child_law.still_over c all es h.0, OverAll-Stand cs alls ess h.1)

  merge_first :
      (m : MergingIterator S) (all : List Entry)
      → MergeOver m all
      → MergeAt (merging_seek_to_first it order m) all all
  unfolding merging_seek_to_first find_smallest
  merge_first m all (alls, over, whole) =
      (alls, alls, Stand-seek_to_first m.children alls over, whole, whole, (refl, refl))

  merge_target :
      (m : MergingIterator S) (all : List Entry) (target : Bytes)
      → MergeOver m all
      → MergeAt (merging_seek it order target m) all (entries_from order target all)
  unfolding merging_seek find_smallest
  merge_target m all target (alls, over, whole) = (
    alls,
    map (entries_from order target) alls,
    Stand-seek target m.children alls over,
    whole,
    merge_all-entries_from order law target alls ∙ ap (entries_from order target) whole,
    (refl, refl),
  )

  pub merging-IsForward : IsForward (merging_iterator it order) order MergeOver MergeAt
  merging-IsForward = record {
    at_end = merge_end;
    at_entry = merge_entry;
    at_first = merge_first;
    at_target = merge_target;
    still_over = λ m all es h. (h.0, OverAll-Stand m.children h.0 h.1 h.2, h.3);
  }

  -- A walk of a merging iterator ends. From `SeekToFirst` it gives the entries of all children, merged:
  -- all of them, with rising keys if those of each child rise. From `Seek` it gives those of them from
  -- the first one on that is not below the target.
  pub walk-merging_iterator :
      (m : MergingIterator S) (alls : List (List Entry)) (target : Bytes) (fuel : ℕ)
      → OverAll m.children alls
      → All (IsRising order) alls
      → length (merge_all order alls) < fuel
      → (walk (merging_iterator it order) fuel (merging_seek_to_first it order m)
          ≡ some (merge_all order alls))
        × (walk (merging_iterator it order) fuel (merging_seek it order target m)
            ≡ some (entries_from order target (merge_all order alls)))
        × Perm (merge_all order alls) (flatten alls)
        × IsRising order (merge_all order alls)
  walk-merging_iterator m alls target fuel over rising enough =
      let all = merge_all order alls in
      let forwards =
        walk-entries (merging_iterator it order) order MergeOver MergeAt merging-IsForward all
          fuel in
      (
        forwards all (merging_seek_to_first it order m) enough
            (merge_first m all (alls, over, refl)),
        forwards (entries_from order target all) (merging_seek it order target m)
            (omega (arith, length-entries_from order target all, enough))
            (merge_target m all target (alls, over, refl)),
        merge_all-perm order alls,
        merge_all-IsRising order law alls rising,
      )
