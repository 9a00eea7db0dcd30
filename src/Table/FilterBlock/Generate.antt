-- ===== src/Table/FilterBlock/Generate.antt =====
-- `GenerateFilter` of table/filter_block.cc, with a policy that keeps its contract.
use rally_db.Prelude.{
  ℕ, zero, suc, ◌+◌, ◌%◌, ◌^◌, ◌<◌, List, [], ◌∷◌, ◌++◌, ◌≡◌, ◌∙◌, refl, ap, arith, length, get_or,
}
use rally_db.Util.Coding.{Bytes}
use rally_db.Table.FilterBlock.{FilterPolicy}
use rally_db.Table.FilterBlock.Builder.{FilterBlockBuilder, create_units, generate_filter}
use rally_db.Table.FilterBlock.Content.{Waits, generate_filter-Waits}
use rally_db.Table.FilterBlock.Groups.{IsFilterPolicy, offsets-generate_filter}

module _ (policy : FilterPolicy) (is : IsFilterPolicy policy) where
  length-create_units :
      (i : ℕ) (keys units : List Bytes) → length (create_units policy i keys units) ≡ length units
  unfolding create_units
  length-create_units i keys [] = refl
  length-create_units i keys (unit ∷ units) =
      rw (create_units, is.appends keys unit i) (ap suc (length-create_units (i + 1) keys units))

  get_or-create_units :
      (i j : ℕ) (keys units : List Bytes)
      → j < length units
      → get_or (create_units policy i keys units) j [] ≡ get_or units j [] ++ is.filter (i + j) keys
  unfolding create_units
  get_or-create_units i j keys [] lt = absurd (omega arith)
  get_or-create_units i zero keys (unit ∷ units) lt =
      let at : i + 0 ≡ i = omega arith in rw (create_units, is.appends keys unit i, at) refl
  get_or-create_units i (suc j) keys (unit ∷ units) lt =
      let at : i + suc j ≡ i + 1 + j = omega arith in
      rw (create_units, is.appends keys unit i, at)
        (get_or-create_units (i + 1) j keys units (omega arith))

  -- When keys wait, `GenerateFilter` appends to every unit the policy's filter of these keys, made for the number of the
  -- unit; it appends to the offsets the size that the first unit had, and then no key waits. There are as many units as
  -- before. The policy keeps its contract.
  pub generate_filter_lem :
      (b : FilterBlockBuilder) (k : Bytes) (ks : List Bytes)
      → Waits b (k ∷ ks)
      → (length (generate_filter policy b).filter_units ≡ length b.filter_units)
        × ((i : ℕ)
            → i < length b.filter_units
            → get_or (generate_filter policy b).filter_units i []
              ≡ get_or b.filter_units i [] ++ is.filter i (k ∷ ks))
        × ((generate_filter policy b).filter_offsets
            ≡ b.filter_offsets ++ (length (get_or b.filter_units 0 []) % 2 ^ 32 ∷ []))
        × Waits (generate_filter policy b) []
  generate_filter_lem b k ks waits =
      let (units, none_wait) = generate_filter-Waits policy b k ks waits in
      (
        ap length units ∙ length-create_units 0 (k ∷ ks) b.filter_units,
        λ i lt.
            let at : 0 + i ≡ i = omega arith in
            ap (λ (us : List Bytes). get_or us i []) units
            ∙ get_or-create_units 0 i (k ∷ ks) b.filter_units lt
            ∙ ap (λ (n : ℕ). get_or b.filter_units i [] ++ is.filter n (k ∷ ks)) at,
        (offsets-generate_filter policy is b).0,
        none_wait,
      )
