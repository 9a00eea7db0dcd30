-- ===== src/Table/FilterBlock/Groups.antt =====
-- A `FilterBlockBuilder` seen as the groups of keys that share a filter: those with a filter, and the
-- one that is open.
use rally_db.Prelude.{
  ℕ, zero, suc, ◌+◌, ◌%◌, ◌^◌, ◌≤◌, List, [], ◌∷◌, ◌++◌, ◌≡◌, ◌∙◌, refl, sym, Bool-cases, inl, inr,
  true, arith, ◌==◌, length, length-append, append_assoc, append-nil,
}
use rally_db.Util.Coding.{Bytes}
use rally_db.Prelude.Bytes.{Among}
use rally_db.Table.FilterBlock.{FilterPolicy}
use rally_db.Table.FilterBlock.Builder.{
  FilterBlockBuilder, new_builder, add_key, create_units, generate_filter, unit_size,
}
use rally_db.Table.FilterBlock.Content.{Waits, flat, starts, add_key-Waits, generate_filter-Waits}

-- The contract of include/leveldb/filter_policy.h, with that of the units: `CreateFilter` appends a
-- filter and leaves the keys alone, the filters of all units are equally long, and a key that a
-- filter was made for matches it, when there are at most `limit` keys.
pub record IsFilterPolicy (policy : FilterPolicy) : Type 0 where
  pub filter : ℕ → List Bytes → Bytes
  pub limit : ℕ
  pub appends :
      (keys : List Bytes) (dst : Bytes) (i : ℕ)
      → policy.create_filter keys dst i ≡ (dst ++ filter i keys, keys)
  pub same_size : (i : ℕ) (keys : List Bytes) → length (filter i keys) ≡ length (filter 0 keys)
  pub finds :
      (i : ℕ) (k : Bytes) (keys : List Bytes)
      → length keys ≤ limit
      → Among k keys
      → policy.key_may_match k (filter i keys) i ≡ true

module _ (filter : ℕ → List Bytes → Bytes) where
  -- The filter of a group in unit `i`; a group without keys has none.
  unfoldable pub piece : ℕ → List Bytes → Bytes
  piece i [] = []
  piece i (k ∷ ks) = filter i (k ∷ ks)

  unfoldable pub unit : ℕ → List (List Bytes) → Bytes
  unit i [] = []
  unit i (g ∷ gs) = piece i g ++ unit i gs

  -- Where each group's filter begins.
  unfoldable pub offsets : ℕ → List (List Bytes) → List ℕ
  offsets n [] = []
  offsets n (g ∷ gs) = (n % 2 ^ 32) ∷ offsets (n + length (piece 0 g)) gs

  -- `m` units from number `i` on.
  unfoldable pub unit_list : (m i : ℕ) → List (List Bytes) → List Bytes
  unit_list zero i gs = []
  unit_list (suc m) i gs = unit i gs ∷ unit_list m (i + 1) gs

  pub unit-append : (i : ℕ) (gs hs : List (List Bytes)) → unit i (gs ++ hs) ≡ unit i gs ++ unit i hs
  unfolding unit
  unit-append i [] hs = refl
  unit-append i (g ∷ gs) hs = rw (unit-append i gs hs, append_assoc)

  pub offsets-append :
      (n : ℕ) (gs hs : List (List Bytes))
      → offsets n (gs ++ hs) ≡ offsets n gs ++ offsets (n + length (unit 0 gs)) hs
  unfolding offsets unit
  offsets-append n [] hs = ground arith
  offsets-append n (g ∷ gs) hs =
      ground (
        arith,
        offsets-append (n + length (piece 0 g)) gs hs,
        length-append (piece 0 g) (unit 0 gs),
      )

  unit_list-nil :
      (m i : ℕ) (gs : List (List Bytes)) → unit_list m i (gs ++ ([] ∷ [])) ≡ unit_list m i gs
  unfolding unit_list unit piece
  unit_list-nil zero i gs = refl
  unit_list-nil (suc m) i gs =
      rw (unit-append i gs ([] ∷ []), append-nil, unit_list-nil m (i + 1) gs) refl

  -- The builder holds the filters of `gs`, and the keys `ks` wait.
  pub record Holds (b : FilterBlockBuilder) (gs : List (List Bytes)) (ks : List Bytes)
      : Type 0 where
    pub waits : Waits b ks
    pub offsets_held : b.filter_offsets ≡ offsets 0 gs
    pub units_held : b.filter_units ≡ unit_list 6 0 gs
    pub result_empty : b.result ≡ []

  pub new_builder-Holds : Holds new_builder [] []
  unfolding new_builder unit_list unit offsets Waits flat starts
  new_builder-Holds = record {
    waits = (refl, refl);
    offsets_held = refl;
    units_held = refl;
    result_empty = refl;
  }

  pub add_key-Holds :
      (b : FilterBlockBuilder) (gs : List (List Bytes)) (ks : List Bytes) (k : Bytes)
      → Holds b gs ks
      → Holds (add_key b k) gs (ks ++ (k ∷ []))
  add_key-Holds b gs ks k h = record {
    waits = add_key-Waits b ks k h.waits;
    offsets_held = unfold add_key in h.offsets_held;
    units_held = unfold add_key in h.units_held;
    result_empty = unfold add_key in h.result_empty;
  }

module _ (policy : FilterPolicy) (is : IsFilterPolicy policy) where
  create_units-unit_list :
      (m i : ℕ) (gs : List (List Bytes)) (k : Bytes) (ks : List Bytes)
      → create_units policy i (k ∷ ks) (unit_list is.filter m i gs)
        ≡ unit_list is.filter m i (gs ++ ((k ∷ ks) ∷ []))
  unfolding create_units unit_list unit piece
  create_units-unit_list zero i gs k ks = refl
  create_units-unit_list (suc m) i gs k ks =
      rw
        (
          is.appends (k ∷ ks) (unit is.filter i gs) i,
          unit-append is.filter i gs ((k ∷ ks) ∷ []),
          append-nil,
          create_units-unit_list m (i + 1) gs k ks,
        )
        refl

  pub offsets-generate_filter :
      (b : FilterBlockBuilder)
      → ((generate_filter policy b).filter_offsets
          ≡ b.filter_offsets ++ (unit_size b.filter_units ∷ []))
        × ((generate_filter policy b).result ≡ b.result)
  unfolding generate_filter
  offsets-generate_filter b = elim (Bool-cases (length b.start == 0)) [
    | inl none_wait ↦ (rw (generate_filter, none_wait) refl, rw (generate_filter, none_wait) refl)
    | inr some_wait ↦ (rw (generate_filter, some_wait) refl, rw (generate_filter, some_wait) refl)
  ]

  -- `StartBlock` skips a range without keys: the filter is empty.
  generate_nothing :
      (b : FilterBlockBuilder)
      → Waits b []
      → ((generate_filter policy b).filter_units ≡ b.filter_units)
        × Waits (generate_filter policy b) []
  unfolding generate_filter Waits flat starts
  generate_nothing b (hk, hs) =
      let empty : (length b.start == 0) ≡ true = rw hs refl in
      (
        rw (generate_filter, empty) refl,
        (rw (generate_filter, empty) hk, rw (generate_filter, empty) hs),
      )

  generated_offsets :
      (b : FilterBlockBuilder) (gs : List (List Bytes)) (g : List Bytes)
      → b.filter_offsets ≡ offsets is.filter 0 gs
      → b.filter_units ≡ unit_list is.filter 6 0 gs
      → (generate_filter policy b).filter_offsets ≡ offsets is.filter 0 (gs ++ (g ∷ []))
  unfolding offsets unit_list
  generated_offsets b gs g ho hu =
      (offsets-generate_filter b).0
      ∙ rw (ho, hu, offsets-append is.filter 0 gs (g ∷ [])) (ground arith)

  -- `GenerateFilter` closes the open group, and opens one without keys.
  pub generate_filter-Holds :
      (b : FilterBlockBuilder) (gs : List (List Bytes)) (ks : List Bytes)
      → Holds is.filter b gs ks
      → Holds is.filter (generate_filter policy b) (gs ++ (ks ∷ [])) []
  generate_filter-Holds b gs [] h = record {
    waits = (generate_nothing b h.waits).1;
    offsets_held = generated_offsets b gs [] h.offsets_held h.units_held;
    units_held =
        (generate_nothing b h.waits).0 ∙ h.units_held ∙ sym (unit_list-nil is.filter 6 0 gs);
    result_empty = (offsets-generate_filter b).1 ∙ h.result_empty;
  }
  generate_filter-Holds b gs (k ∷ ks) h =
      let filled = generate_filter-Waits policy b k ks h.waits in
      record {
        waits = filled.1;
        offsets_held = generated_offsets b gs (k ∷ ks) h.offsets_held h.units_held;
        units_held = filled.0 ∙ rw h.units_held (create_units-unit_list 6 0 gs k ks);
        result_empty = (offsets-generate_filter b).1 ∙ h.result_empty;
      }
