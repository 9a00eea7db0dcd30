-- ===== src/Table/Merger/Merge.antt =====
-- The merge of lists of entries by their keys: of entries with the same key, those of an earlier list
-- come first.
use rally_db.Prelude.{
  List, [], ◌∷◌, ◌++◌, ◌≡◌, refl, Bool, true, false, arith, map, All, All-weaken, append-nil, subst,
  Bool-cases, inl, inr,
}
use mathlib.Core.List.{Perm, perm_middle, flatten}
use mathlib.Core.List.Perm
use rally_db.Util.Coding.{Bytes}
use rally_db.Util.Comparator.{Sign, is_negative}
use rally_db.Table.Iterator.{Entry, entries_from}

-- What the merge relies on: `<` and "not <" are transitive.
pub record IsOrder (order : Bytes → Bytes → Sign) : Type 0 where
  pub lt_trans :
      (a b c : Bytes)
      → is_negative (order a b) ≡ true
      → is_negative (order b c) ≡ true
      → is_negative (order a c) ≡ true
  pub above : (a b : Bytes) → is_negative (order a b) ≡ true → is_negative (order b a) ≡ false
  pub ge_trans :
      (a b c : Bytes)
      → is_negative (order a b) ≡ false
      → is_negative (order b c) ≡ false
      → is_negative (order a c) ≡ false

module _ (order : Bytes → Bytes → Sign) where
  abbrev pub below : Entry → Entry → Bool
  below x y = is_negative (order x.0 y.0)

  unfoldable pub merge : List Entry → List Entry → List Entry
  merge [] ys = ys
  merge (x ∷ xs) [] = x ∷ xs
  merge (x ∷ xs) (y ∷ ys) = elim (below y x) [
    | true ↦ y ∷ merge (x ∷ xs) ys
    | false ↦ x ∷ merge xs (y ∷ ys)
  ]

  unfoldable pub merge_all : List (List Entry) → List Entry
  unfolding merge
  merge_all [] = []
  merge_all (xs ∷ lists) = merge xs (merge_all lists)

  pub merge-nil : (xs : List Entry) → merge xs [] ≡ xs
  unfolding merge
  merge-nil [] = refl
  merge-nil (x ∷ xs) = refl

  -- The two ways in which a merge goes on.
  pub merge-both :
      (P : List Entry → Type 0) (x : Entry) (xs : List Entry) (y : Entry) (ys : List Entry)
      → (below y x ≡ true → P (y ∷ merge (x ∷ xs) ys))
      → (below y x ≡ false → P (x ∷ merge xs (y ∷ ys)))
      → P (merge (x ∷ xs) (y ∷ ys))
  unfolding merge
  merge-both P x xs y ys f g = elim (Bool-cases (below y x)) [
    | inl first ↦
        let e : y ∷ merge (x ∷ xs) ys ≡ merge (x ∷ xs) (y ∷ ys) = ground arith in
        subst P e (f first)
    | inr later ↦
        let e : x ∷ merge xs (y ∷ ys) ≡ merge (x ∷ xs) (y ∷ ys) = ground arith in
        subst P e (g later)
  ]

  pub merge-perm : (xs ys : List Entry) → Perm (merge xs ys) (xs ++ ys)
  unfolding merge
  merge-perm [] ys = Perm.refl ys
  merge-perm (x ∷ xs) [] = rw append-nil (Perm.refl (x ∷ xs))
  merge-perm (x ∷ xs) (y ∷ ys) =
      merge-both (λ l. Perm l ((x ∷ xs) ++ (y ∷ ys))) x xs y ys
        (λ _.
          Perm.trans (Perm.cons y (merge-perm (x ∷ xs) ys)) (Perm.symm (perm_middle (x ∷ xs) ys)))
        (λ _. Perm.cons x (merge-perm xs (y ∷ ys)))

  -- The merge has all of the entries.
  pub merge_all-perm : (lists : List (List Entry)) → Perm (merge_all lists) (flatten lists)
  unfolding merge_all flatten
  merge_all-perm [] = Perm.refl []
  merge_all-perm (xs ∷ lists) =
      Perm.trans (merge-perm xs (merge_all lists))
        (Perm.append (Perm.refl xs) (merge_all-perm lists))

  -- No entry is below one in front of it.
  abbrev pub IsRising : List Entry → Type 0
  IsRising [] = Unit {0}
  IsRising (e ∷ es) = All (λ f. below f e ≡ false) es × IsRising es

  merge-All : (P : Entry → Type 0) (xs ys : List Entry) → All P xs → All P ys → All P (merge xs ys)
  unfolding merge
  merge-All P [] ys h k = k
  merge-All P (x ∷ xs) [] h k = h
  merge-All P (x ∷ xs) (y ∷ ys) h k =
      merge-both (All P) x xs y ys (λ _. (k.0, merge-All P (x ∷ xs) ys h k.1))
        (λ _. (h.0, merge-All P xs (y ∷ ys) h.1 k))

  module _ (law : IsOrder order) where
    merge-IsRising : (xs ys : List Entry) → IsRising xs → IsRising ys → IsRising (merge xs ys)
    unfolding merge
    merge-IsRising [] ys h k = k
    merge-IsRising (x ∷ xs) [] h k = h
    merge-IsRising (x ∷ xs) (y ∷ ys) (hx, h) (ky, k) =
        merge-both IsRising x xs y ys
          (λ first.
            let over = law.above y.0 x.0 first in
            (
              merge-All (λ f. below f y ≡ false) (x ∷ xs) ys
                  (
                    over,
                    All-weaken (λ (f : Entry). below f x ≡ false) (λ f. below f y ≡ false) xs
                        (λ f g. law.ge_trans f.0 x.0 y.0 g over) hx,
                  )
                  ky,
              merge-IsRising (x ∷ xs) ys (hx, h) k,
            ))
          (λ later. (
            merge-All (λ f. below f x ≡ false) xs (y ∷ ys) hx
                (
                  later,
                  All-weaken (λ (f : Entry). below f y ≡ false) (λ f. below f x ≡ false) ys
                      (λ f g. law.ge_trans f.0 y.0 x.0 g later) ky,
                ),
            merge-IsRising xs (y ∷ ys) h (ky, k),
          ))

    -- The merge of rising lists is rising.
    pub merge_all-IsRising :
        (lists : List (List Entry)) → All IsRising lists → IsRising (merge_all lists)
    unfolding merge_all
    merge_all-IsRising [] h = tt
    merge_all-IsRising (xs ∷ lists) h =
        merge-IsRising xs (merge_all lists) h.0 (merge_all-IsRising lists h.1)

  module _ (law : IsOrder order) (target : Bytes) where
    -- What is not below a target can be taken before the merge.
    pub merge-entries_from :
        (xs ys : List Entry)
        → entries_from order target (merge xs ys)
          ≡ merge (entries_from order target xs) (entries_from order target ys)
    unfolding merge entries_from
    merge-entries_from [] ys = refl
    merge-entries_from (x ∷ xs) [] = rw (merge-nil (entries_from order target (x ∷ xs)))
    merge-entries_from (x ∷ xs) (y ∷ ys) = elim (Bool-cases (below y x)) [
      | inl first ↦ ground (arith, merge-entries_from (x ∷ xs) ys, law.lt_trans y.0 x.0 target)
      | inr later ↦ ground (arith, merge-entries_from xs (y ∷ ys), law.ge_trans y.0 x.0 target)
    ]

    pub merge_all-entries_from :
        (lists : List (List Entry))
        → merge_all (map (entries_from order target) lists)
          ≡ entries_from order target (merge_all lists)
    unfolding merge_all
    merge_all-entries_from [] = unfold entries_from in refl
    merge_all-entries_from (xs ∷ lists) =
        rw (merge_all-entries_from lists, merge-entries_from xs (merge_all lists))
