-- ===== src/Table/Merger/Smallest.antt =====
-- `FindSmallest` chooses the child at the head of the merge of what the children have left.
use rally_db.Prelude.{
  ℕ, suc, ◌+◌, List, [], ◌∷◌, ◌≡◌, refl, Option, none, some, arith, if◌then◌else◌, get_elem?, set,
  ap,
}
use rally_db.Util.Coding.{Bytes}
use rally_db.Util.Comparator.{Sign, is_negative}
use rally_db.Table.Iterator.{Iterator, Entry, IsForward}
use rally_db.Table.Merger.{smaller, smallest_loop}
use rally_db.Table.Merger.Merge.{IsOrder, merge, merge_all, merge-nil, merge-both}

module _ {S : Type 0} (it : Iterator S) (order : Bytes → Bytes → Sign) (law : IsOrder order)
    (Over : S → List Entry → Type 0) (At : S → List Entry → List Entry → Type 0)
    (child_law : IsForward it order Over At) where
  -- Each child stands at the entries that it has left.
  abbrev pub Standing : List S → List (List Entry) → List (List Entry) → Type 0
  Standing [] [] [] = Unit {0}
  Standing (c ∷ cs) (all ∷ alls) (es ∷ ess) = At c all es × Standing cs alls ess
  Standing _ _ _ = ⊥

  abbrev choose : Option (ℕ × S) → Option (ℕ × S) → Option (ℕ × S)
  choose none r = r
  choose (some a) none = some a
  choose (some a) (some b) =
      if is_negative (order (it.key b.1) (it.key a.1)) then some b else some a

  abbrev offer : ℕ → S → Option (ℕ × S)
  offer i c = if it.valid c then some (i, c) else none

  -- The smallest child, the first of several.
  pub pick : ℕ → List S → Option (ℕ × S)
  pick i [] = none
  pick i (c ∷ cs) = choose (offer i c) (pick (suc i) cs)

  choose_assoc : (a b c : Option (ℕ × S)) → choose (choose a b) c ≡ choose a (choose b c)
  choose_assoc none b c = refl
  choose_assoc (some a) none c = refl
  choose_assoc (some a) (some b) none = ground arith
  choose_assoc (some a) (some b) (some c) = ground (
    arith,
    law.lt_trans (it.key c.1) (it.key b.1) (it.key a.1),
    law.ge_trans (it.key c.1) (it.key b.1) (it.key a.1),
  )

  smaller-choose :
      (i : ℕ) (c : S) (best : Option (ℕ × S)) → smaller it order i c best ≡ choose best (offer i c)
  unfolding smaller
  smaller-choose i c none = ground arith
  smaller-choose i c (some b) = ground arith

  -- The loop from left to right finds it.
  pub smallest_loop-pick :
      (i : ℕ) (cs : List S) (best : Option (ℕ × S))
      → smallest_loop it order i cs best ≡ choose best (pick i cs)
  unfolding smallest_loop pick
  smallest_loop-pick i [] none = refl
  smallest_loop-pick i [] (some b) = refl
  smallest_loop-pick i (c ∷ cs) best =
      rw (smallest_loop-pick (suc i) cs (smaller it order i c best), smaller-choose i c best)
        (choose_assoc best (offer i c) (pick (suc i) cs))

  -- What is chosen of children behind `i` others, whose merge is `merged`.
  abbrev pub Picked : ℕ → List S → List (List Entry) → List Entry → Type 0
  Picked i cs alls [] = pick i cs ≡ none
  Picked i cs alls (e ∷ es) =
      (j : ℕ) × (c : S) × (pick i cs ≡ some (i + j, c))
      × (get_elem? cs j ≡ some c)
      × ((it.key c ≡ e.0) × (it.value c ≡ e.1))
      × (ess : List (List Entry)) × Standing (set cs j (it.next c)) alls ess
      × (merge_all order ess ≡ es)

  -- One more child, with nothing left.
  pick_past :
      (i : ℕ) (c : S) (cs : List S) (all : List Entry) (alls : List (List Entry)) (es : List Entry)
      → At c all []
      → Picked (suc i) cs alls es
      → Picked i (c ∷ cs) (all ∷ alls) es
  unfolding pick merge_all merge
  pick_past i c cs all alls [] here p = ground (arith, child_law.at_end c all here)
  pick_past i c cs all alls (e ∷ es) here (j, d, is, at, same, ess, stand, merged) = (
    suc j,
    d,
    ground (arith, child_law.at_end c all here),
    at,
    same,
    [] ∷ ess,
    (here, stand),
    merged,
  )

  -- One more child, with its first entry.
  pick_here :
      (i : ℕ) (c : S) (cs : List S) (all : List Entry) (alls : List (List Entry)) (x : Entry)
      (xs : List Entry) (ess : List (List Entry)) (rest : List Entry)
      → At c all (x ∷ xs)
      → Standing cs alls ess
      → merge_all order ess ≡ rest
      → Picked (suc i) cs alls rest
      → Picked i (c ∷ cs) (all ∷ alls) (merge order (x ∷ xs) rest)
  unfolding pick
  pick_here i c cs all alls x xs ess [] here stand end p =
      let (valid, key, val, behind) = child_law.at_entry c all x xs here in
      unfold merge in
      (
        0,
        c,
        ground arith,
        refl,
        (key, val),
        xs ∷ ess,
        (behind, stand),
        unfold merge_all in rw end (merge-nil order xs),
      )
  pick_here i c cs all alls x xs ess (y ∷ ys) here stand end p =
      let (valid, key, val, behind) = child_law.at_entry c all x xs here in
      let (j, d, is, at, (same_key, same_value), left, stands, merged) = p in
      merge-both order (Picked i (c ∷ cs) (all ∷ alls)) x xs y ys
        (λ first. (
          suc j,
          d,
          ground arith,
          at,
          (same_key, same_value),
          (x ∷ xs) ∷ left,
          (here, stands),
          unfold merge_all in ap (merge order (x ∷ xs)) merged,
        ))
        (λ later. (
          0,
          c,
          ground arith,
          refl,
          (key, val),
          xs ∷ ess,
          (behind, stand),
          unfold merge_all in ap (merge order xs) end,
        ))

  pub pick_lem :
      (i : ℕ) (cs : List S) (alls ess : List (List Entry))
      → Standing cs alls ess
      → Picked i cs alls (merge_all order ess)
  unfolding pick merge_all merge
  pick_lem i [] [] [] h = refl
  pick_lem i [] [] (x ∷ ess) h = elim h [ ]
  pick_lem i [] (x ∷ alls) ess h = elim h [ ]
  pick_lem i (c ∷ cs) [] ess h = elim h [ ]
  pick_lem i (c ∷ cs) (all ∷ alls) [] h = elim h [ ]
  pick_lem i (c ∷ cs) (all ∷ alls) ([] ∷ ess) (here, h) =
      pick_past i c cs all alls (merge_all order ess) here (pick_lem (suc i) cs alls ess h)
  pick_lem i (c ∷ cs) (all ∷ alls) ((x ∷ xs) ∷ ess) (here, h) =
      pick_here i c cs all alls x xs ess (merge_all order ess) here h refl
        (pick_lem (suc i) cs alls ess h)
