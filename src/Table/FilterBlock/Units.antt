-- ===== src/Table/FilterBlock/Units.antt =====
-- How `LoadFilterInternal`, `EvictFilterInternal` and the loops over them change the loaded units.
use rally_db.Prelude.{
  ℕ, ◌+◌, ◌-◌, ◌*◌, ◌%◌, ◌^◌, ◌<◌, List, [], ◌∷◌, ◌++◌, ◌≡◌, refl, ◌⊎◌, inl, inr, true, false,
  arith, leb, ◌==◌, length, Bool-cases,
}
use rally_db.Util.Status.{Status, is_ok}
use rally_db.Util.Coding.{Bytes}
use rally_db.Table.FilterBlock.Reader.{FilterBlockReader, load_filter, evict_filter, pop_back}

length-pop_back : (us : List Bytes) → length (pop_back us) ≡ length us - 1
unfolding pop_back
length-pop_back [] = omega arith
length-pop_back (u ∷ []) = omega arith
length-pop_back (u ∷ v ∷ us) = omega (arith, length-pop_back (v ∷ us))

-- What may have become of a reader: nothing, or its units are others.
abbrev pub Evicted : FilterBlockReader → FilterBlockReader → Type 0
Evicted r r' =
    (r' ≡ record r { filter_units = pop_back r.filter_units })
    × (length r'.filter_units + 1 ≡ length r.filter_units)

pub evict_cases :
    (r : FilterBlockReader)
    → ((is_ok (evict_filter r).0 ≡ false) × ((evict_filter r).1 ≡ r) × (length r.filter_units ≡ 0))
      ⊎ ((is_ok (evict_filter r).0 ≡ true) × Evicted r (evict_filter r).1)
unfolding evict_filter
evict_cases r = elim (Bool-cases (length r.filter_units == 0)) [
  | inl z ↦ inl (rw (z, evict_filter) (refl, refl, ground arith))
  | inr p ↦
      inr (rw (p, evict_filter) (refl, (refl, ground (arith, length-pop_back r.filter_units))))
]

module _ (read_block : ℕ → ℕ → ℕ → Status × Bytes) where
  -- A unit was added, and it is what stands at its place in the file.
  abbrev pub Loaded : FilterBlockReader → FilterBlockReader → Type 0
  Loaded r r' =
      (c : Bytes) × (r' ≡ record r { filter_units = r.filter_units ++ (c ∷ []) })
      × (length r.filter_units < r.all_units_number)

  pub load_cases :
      (r : FilterBlockReader)
      → ((is_ok (load_filter read_block r).0 ≡ false) × ((load_filter read_block r).1 ≡ r))
        ⊎ ((is_ok (load_filter read_block r).0 ≡ true) × Loaded r (load_filter read_block r).1)
  unfolding load_filter
  load_cases r = elim (Bool-cases (leb r.all_units_number (length r.filter_units))) [
    | inl full ↦ inl (rw (full, load_filter) (refl, refl))
    | inr room ↦ elim (Bool-cases (is_ok read.0)) [
      | inl fine ↦ inr (rw (room, fine, load_filter) (fine, (read.1, refl, ground arith)))
      | inr failed ↦ inl (rw (room, failed, load_filter) (failed, refl))
    ]
  ]
    where
      read : Status × Bytes
      read =
          read_block r.file ((r.disk_offset + (r.disk_size + 5) * length r.filter_units) % 2 ^ 64)
            r.disk_size
