-- ===== src/Table/Builder/Filters.antt =====
-- The units of a filter block that `WriteRawFilters` wrote, loaded by `FilterBlockReader`.
use rally_db.Prelude.{
  ℕ, zero, suc, ◌+◌, ◌*◌, ◌%◌, ◌^◌, ◌≤◌, ◌<◌, ◌≡◌, ◌∙◌, refl, sym, ap, List, [], ◌∷◌, ◌++◌, Bool,
  true, false, arith, ltb, leb, length, length-append, length-take, get_or, take, append_assoc,
  append-nil, All, Bool-cases, inl, inr,
}
use rally_db.Util.Status.{Status, ok}
use rally_db.Util.Coding.{Bytes}
use rally_db.Util.Crc.{Crc}
use rally_db.Table.Format.{no_compression, Compressors, read_block}
use rally_db.Table.Builder.{Rep, trailer, append_block, append_filters}
use rally_db.Table.Builder.Blocks.{intact, read_at, unpack, length-trailer, read_block-trailer}
use rally_db.Table.FilterBlock.Reader.{FilterBlockReader, load_filter, load_loop, init_load_filter}
use native.Mathlib.Nat.{mul-le-mul_left, mod-eq_of_lt}

module _ (crc : Crc) (lib : Compressors) where
  -- The units, each with its trailer.
  unfoldable stored : List Bytes → Bytes
  stored [] = []
  stored (f ∷ fs) = f ++ (trailer crc f no_compression ++ stored fs)

  append_filters-stored :
      (r : Rep Bytes) (fs : List Bytes)
      → (append_filters crc lib intact r fs no_compression).file ≡ r.file ++ stored fs
  unfolding append_filters append_block stored
  append_filters-stored r [] = sym (append-nil r.file)
  append_filters-stored r (f ∷ fs) =
      append_filters-stored (append_block crc lib intact r f no_compression) fs ∙ simp append_assoc

  -- What stands in front of a unit, and behind it.
  unit_front : (fs : List Bytes) (i : ℕ) → Bytes
  unit_front [] i = []
  unit_front (f ∷ fs) zero = []
  unit_front (f ∷ fs) (suc i) = f ++ (trailer crc f no_compression ++ unit_front fs i)

  unit_back : (fs : List Bytes) (i : ℕ) → Bytes
  unit_back [] i = []
  unit_back (f ∷ fs) zero = stored fs
  unit_back (f ∷ fs) (suc i) = unit_back fs i

  stored_split :
      (fs : List Bytes) (i : ℕ)
      → i < length fs
      → stored fs
        ≡ unit_front fs i
          ++ (get_or fs i [] ++ (trailer crc (get_or fs i []) no_compression ++ unit_back fs i))
  unfolding stored unit_front unit_back
  stored_split [] i lt = absurd (omega arith)
  stored_split (f ∷ fs) zero lt = refl
  stored_split (f ∷ fs) (suc i) lt = rw (stored_split fs i (omega arith)) (simp append_assoc)

  length-unit_front :
      (n : ℕ) (fs : List Bytes) (i : ℕ)
      → All (λ f. length f ≡ n) fs
      → i < length fs
      → length (unit_front fs i) ≡ (n + 5) * i
  unfolding unit_front
  length-unit_front n [] i same lt = absurd (omega arith)
  length-unit_front n (f ∷ fs) zero same lt = omega arith
  length-unit_front n (f ∷ fs) (suc i) (e, same) lt = omega (
    arith,
    e,
    length-append f (trailer crc f no_compression ++ unit_front fs i),
    length-append (trailer crc f no_compression) (unit_front fs i),
    length-trailer crc lib f no_compression,
    length-unit_front n fs i same,
  )

  length-get_or :
      (n : ℕ) (fs : List Bytes) (i : ℕ)
      → All (λ f. length f ≡ n) fs
      → i < length fs
      → length (get_or fs i []) ≡ n
  length-get_or n [] i same lt = absurd (omega arith)
  length-get_or n (f ∷ fs) zero same lt = same.0
  length-get_or n (f ∷ fs) (suc i) same lt = length-get_or n fs i same.1 (omega arith)

  take_next :
      (fs : List Bytes) (i : ℕ)
      → i < length fs
      → take i fs ++ (get_or fs i [] ∷ []) ≡ take (suc i) fs
  take_next [] i lt = absurd (omega arith)
  take_next (f ∷ fs) zero lt = refl
  take_next (f ∷ fs) (suc i) lt = ap (◌∷◌ f) (take_next fs i (omega arith))

  -- `ReadBlock` on the file.
  abbrev pub reads : Bytes → Bool → ℕ → ℕ → ℕ → Status × Bytes
  reads file verify number offset size =
      read_block crc lib (read_at file) verify (record { offset = offset; size = size })

  module _ (r : Rep Bytes) (fs : List Bytes) (n : ℕ) (rest : Bytes) (verify : Bool)
      (at : r.offset ≡ length r.file) (same : All (λ f. length f ≡ n) fs)
      (fits : r.offset + (n + 5) * length fs < 2 ^ 64) where
    -- The file, with anything behind the units.
    abbrev file : Bytes
    file = (append_filters crc lib intact r fs no_compression).file ++ rest

    read_unit :
        (i place : ℕ)
        → i < length fs
        → place ≡ r.offset + (n + 5) * i
        → read_block crc lib (read_at file) verify (record { offset = place; size = n })
          ≡ (ok, get_or fs i [])
    unfolding unpack
    read_unit i place lt e =
        let unit : Bytes = get_or fs i [] in
        let t : Bytes = trailer crc unit no_compression in
        let whole : file
            ≡ (r.file ++ unit_front fs i) ++ (unit ++ (t ++ (unit_back fs i ++ rest))) =
          rw (append_filters-stored r fs, stored_split fs i lt) (simp append_assoc) in
        rw whole (
          read_block-trailer crc lib (r.file ++ unit_front fs i) unit no_compression
            (unit_back fs i ++ rest) verify place n
            (omega
              (arith, length-append r.file (unit_front fs i), length-unit_front n fs i same lt))
            (sym (length-get_or n fs i same lt)))

    -- A reader of the units, `i` of them being loaded.
    abbrev Reads : FilterBlockReader → ℕ → Type 0
    Reads reader i =
        (reader.disk_offset ≡ r.offset)
        × (reader.disk_size ≡ n)
        × (reader.all_units_number ≡ length fs)
        × (reader.filter_units ≡ take i fs)

    load_filter-Reads :
        (reader : FilterBlockReader) (i : ℕ)
        → Reads reader i
        → i < length fs
        → load_filter (reads file verify) reader
          ≡ (ok, record reader { filter_units = take (suc i) fs })
    unfolding load_filter
    load_filter-Reads reader i (o, s, all, units) lt =
        let loaded : length reader.filter_units ≡ i = rw units (omega (arith, length-take i fs)) in
        let full : leb reader.all_units_number (length reader.filter_units) ≡ false =
          ground arith in
        let bound : (n + 5) * i ≤ (n + 5) * length fs = mul-le-mul_left (n + 5) (omega arith) in
        let place : (r.offset + (n + 5) * i) % 2 ^ 64 ≡ r.offset + (n + 5) * i =
          mod-eq_of_lt (omega (arith, bound)) in
        let unit : reads file verify reader.file
              ((reader.disk_offset + (reader.disk_size + 5) * length reader.filter_units) % 2 ^ 64)
              reader.disk_size
            ≡ (ok, get_or fs i []) =
          rw (loaded, o, s) (read_unit i ((r.offset + (n + 5) * i) % 2 ^ 64) lt place) in
        let longer : reader.filter_units ++ (get_or fs i [] ∷ []) ≡ take (suc i) fs =
          rw units (take_next fs i lt) in
        rw (load_filter, full, unit, unit, longer) refl

    load_loop-Reads :
        (fuel target : ℕ) (reader : FilterBlockReader) (i : ℕ)
        → Reads reader i
        → i ≤ target
        → target ≤ length fs
        → target ≤ i + fuel
        → load_loop (reads file verify) fuel target reader
          ≡ (ok, record reader { filter_units = take target fs })
    unfolding load_loop
    load_loop-Reads zero target reader i (o, s, all, units) le lt enough =
        let done : i ≡ target = omega arith in rw (← done, ← units) refl
    load_loop-Reads (suc fuel) target reader i (o, s, all, units) le lt enough =
        let loaded : length reader.filter_units ≡ i = rw units (omega (arith, length-take i fs)) in
        elim (Bool-cases (ltb (length reader.filter_units) target)) [
          | inl more ↦
              let next : FilterBlockReader = record reader { filter_units = take (suc i) fs } in
              let below : i < target = ground arith in
              let step = load_filter-Reads reader i (o, s, all, units) (omega arith) in
              rw (load_loop, more, step, step)
                (load_loop-Reads fuel target next (suc i) (o, s, all, refl) (omega arith) lt
                  (omega arith))
          | inr enough' ↦
              let done : i ≡ target = ground arith in rw (load_loop, enough', ← done, ← units) refl
        ]

    -- `InitLoadFilter` of a reader that has loaded nothing.
    pub init_load_filter-Reads :
        (reader : FilterBlockReader)
        → Reads reader 0
        → reader.init_units_number ≤ length fs
        → init_load_filter (reads file verify) reader ≡ (
          ok,
          record reader { filter_units = take reader.init_units_number fs; init_done = true },
        )
    unfolding init_load_filter
    init_load_filter-Reads reader h le =
        rw
          (
            init_load_filter,
            load_loop-Reads reader.init_units_number reader.init_units_number reader 0 h
                (omega arith) le (omega arith),
          )
          refl
