-- ===== src/Util/MultiQueue/Memory.antt =====
-- Adjustments and the memory that the loaded filters take.
use rally_db.Prelude.{
  ℕ, zero, suc, ◌+◌, ◌-◌, ◌*◌, ◌%◌, ◌^◌, ◌≤◌, ◌<◌, List, [], ◌∷◌, ◌++◌, ◌≡◌, refl, ap, sym, ◌∙◌,
  true, false, arith, ltb, leb, ◌==◌, if◌then◌else◌, length, length-append, All, Bool-cases, inl,
  inr, ◌⊎◌,
}
use mathlib.Core.Bool.{false≢true}
use rally_db.Util.Status.{Status, is_ok}
use rally_db.Table.FilterBlock.Reader.{
  FilterBlockReader, one_unit_size, filter_units_number, load_filter, evict_filter,
}
use rally_db.Table.FilterBlock.Units.{evict_cases, load_cases}
use rally_db.Util.Coding.{Bytes}
use rally_db.Util.MultiQueue.{MultiQueue, set_reader, move_handle}
use rally_db.Util.MultiQueue.Cold.{find_cold_filter}
use rally_db.Util.MultiQueue.Adjust.{
  Double, evict_handle, load_handle, evict_all, apply_adjustment, adjustment,
}
use rally_db.Util.MultiQueue.Selection.{unit_sizes, find_cold_filter_exact, find_cold_filter-All}
use native.Mathlib.Nat.{mod-le}

-- The bytes of the loaded units of one reader, and of the readers of the handles below `n`.
abbrev pub bytes : FilterBlockReader → ℕ
bytes r = filter_units_number r * one_unit_size r

unfoldable pub loaded : (ℕ → FilterBlockReader) → ℕ → ℕ
loaded readers zero = 0
loaded readers (suc n) = bytes (readers n) + loaded readers n

loaded_unset :
    (readers : ℕ → FilterBlockReader) (h : ℕ) (r : FilterBlockReader) (n : ℕ)
    → n ≤ h
    → loaded (λ g. if g == h then r else readers g) n ≡ loaded readers n
unfolding loaded
loaded_unset readers h r zero le = refl
loaded_unset readers h r (suc n) le = ground (arith, loaded_unset readers h r n)

loaded_set :
    (readers : ℕ → FilterBlockReader) (h : ℕ) (r : FilterBlockReader) (n : ℕ)
    → h < n
    → loaded (λ g. if g == h then r else readers g) n + bytes (readers h)
      ≡ loaded readers n + bytes r
unfolding loaded
loaded_set readers h r zero lt = absurd (omega arith)
loaded_set readers h r (suc n) lt =
    ground (arith, loaded_set readers h r n, loaded_unset readers h r n)

one_unit_less :
    (r r' : FilterBlockReader)
    → length r'.filter_units + 1 ≡ length r.filter_units
    → one_unit_size r' ≡ one_unit_size r
    → bytes r' + one_unit_size r ≡ bytes r
one_unit_less r r' fewer same = rw (same, ← fewer) (grind arith)

one_longer :
    (r r' : FilterBlockReader) (c : Bytes)
    → r' ≡ record r { filter_units = r.filter_units ++ (c ∷ []) }
    → length r.filter_units + 1 ≡ length r'.filter_units
one_longer r r' c e = rw e (omega (arith, length-append r.filter_units (c ∷ [])))

-- A sum over handles depends on the sizes only.
unit_sizes-KeepsSizes :
    (m m' : MultiQueue) (hs : List ℕ)
    → ((g : ℕ) → one_unit_size (m'.readers g) ≡ one_unit_size (m.readers g))
    → unit_sizes m'.readers hs ≡ unit_sizes m.readers hs
unfolding unit_sizes
unit_sizes-KeepsSizes m m' [] same = refl
unit_sizes-KeepsSizes m m' (h ∷ hs) same = omega (arith, same h, unit_sizes-KeepsSizes m m' hs same)

module _ (double : Double) (rate : double.Number) (read_block : ℕ → ℕ → ℕ → Status × Bytes) where
  abbrev evict : MultiQueue → ℕ → Status × MultiQueue
  evict = evict_handle double rate read_block

  abbrev load : MultiQueue → ℕ → Status × MultiQueue
  load = load_handle double rate read_block

  -- An operation that leaves the sizes of the units alone.
  abbrev KeepsSizes : MultiQueue → MultiQueue → Type 0
  KeepsSizes m m' = (g : ℕ) → one_unit_size (m'.readers g) ≡ one_unit_size (m.readers g)

  set_reader-KeepsSizes :
      (m m' : MultiQueue) (h : ℕ) (r : FilterBlockReader)
      → m'.readers ≡ m.readers
      → one_unit_size r ≡ one_unit_size (m.readers h)
      → KeepsSizes m (set_reader m' h r)
  set_reader-KeepsSizes m m' h r same e g = rw same (ground arith)

  evict-KeepsSizes : (m : MultiQueue) (h : ℕ) → KeepsSizes m (evict m h).1
  unfolding evict_handle
  evict-KeepsSizes m h = elim (Bool-cases (leb 1 (length (m.readers h).filter_units))) [
    | inr empty ↦ λ g. rw (empty, evict_handle)
    | inl full ↦ elim (evict_cases (m.readers h)) [
      | inl (bad, _, z) ↦ absurd (ground arith)
      | inr (good, (e, l)) ↦ λ g.
          rw (full, evict_handle)
            (set_reader-KeepsSizes m (move_handle m h (length (m.readers h).filter_units - 1)) h
              (evict_filter (m.readers h)).1 (unfold move_handle in refl)
              (ap (λ (r : FilterBlockReader). r.disk_size) e) g)
    ]
  ]

  module _ (n : ℕ) where
    evict_bytes :
        (m : MultiQueue) (h : ℕ)
        → h < n
        → ((is_ok (evict m h).0 ≡ false) × (loaded (evict m h).1.readers n ≡ loaded m.readers n))
          ⊎ ((is_ok (evict m h).0 ≡ true)
              × (loaded (evict m h).1.readers n + one_unit_size (m.readers h) ≡ loaded m.readers n))
    unfolding evict_handle move_handle
    evict_bytes m h lt = elim (Bool-cases (leb 1 (length (m.readers h).filter_units))) [
      | inr empty ↦ inl (rw (empty, evict_handle) (refl, refl))
      | inl full ↦ elim (evict_cases (m.readers h)) [
        | inl (bad, _, z) ↦ absurd (ground arith)
        | inr (good, (e, l)) ↦ inr (
            rw (full, evict_handle)
              (
                good,
                omega (
                  arith,
                  loaded_set m.readers h (evict_filter (m.readers h)).1 n lt,
                  one_unit_less (m.readers h) (evict_filter (m.readers h)).1 l
                      (ap (λ (r : FilterBlockReader). r.disk_size) e),
                ),
              ))
      ]
    ]

    load_bytes :
        (m : MultiQueue) (h : ℕ)
        → h < n
        → ((is_ok (load m h).0 ≡ false) × (loaded (load m h).1.readers n ≡ loaded m.readers n))
          ⊎ ((is_ok (load m h).0 ≡ true)
              × (loaded (load m h).1.readers n ≡ loaded m.readers n + one_unit_size (m.readers h)))
    unfolding load_handle move_handle
    load_bytes m h lt = elim (Bool-cases (ltb (length (m.readers h).filter_units) 6)) [
      | inr full ↦ inl (rw (full, load_handle) (refl, refl))
      | inl room ↦ elim (load_cases read_block (m.readers h)) [
        | inl (bad, e) ↦ inl (
            rw (room, load_handle)
              (
                bad,
                omega (
                  arith,
                  loaded_set m.readers h (load_filter read_block (m.readers h)).1 n lt,
                  ap bytes e,
                ),
              ))
        | inr (good, (c, e, l)) ↦ inr (
            rw (room, load_handle)
              (
                good,
                omega (
                  arith,
                  loaded_set m.readers h (load_filter read_block (m.readers h)).1 n lt,
                  one_unit_less (load_filter read_block (m.readers h)).1 (m.readers h)
                      (one_longer (m.readers h) (load_filter read_block (m.readers h)).1 c e)
                      (ap (λ (r : FilterBlockReader). r.disk_size) (sym e)),
                  ap (λ (r : FilterBlockReader). r.disk_size) e,
                ),
              ))
      ]
    ]

    -- Evicting a list of handles frees a unit of each; it may break off, and then frees less.
    evict_all_bytes :
        (m : MultiQueue) (hs : List ℕ)
        → All (λ h. h < n) hs
        → let (s, m') = evict_all double rate read_block m hs in
          KeepsSizes m m'
          × (loaded m'.readers n ≤ loaded m.readers n)
          × (is_ok s ≡ true → loaded m'.readers n + unit_sizes m.readers hs ≡ loaded m.readers n)
    unfolding evict_all unit_sizes
    evict_all_bytes m [] lt = ((λ g. refl), omega arith, λ _. omega arith)
    evict_all_bytes m (h ∷ hs) lt =
        let m' : MultiQueue = (evict m h).1 in
        let (keeps, less, exact) = evict_all_bytes m' hs lt.1 in
        elim (evict_bytes m h lt.0) [
          | inl (bad, e) ↦
              rw (bad, evict_all)
                (evict-KeepsSizes m h, omega (arith, e), λ p. absurd (false≢true (sym bad ∙ p)))
          | inr (good, e) ↦
              rw (good, evict_all)
                (
                  λ g. keeps g ∙ evict-KeepsSizes m h g,
                  omega (arith, e, less),
                  λ p.
                      omega
                        (arith, exact p, e, unit_sizes-KeepsSizes m m' hs (evict-KeepsSizes m h)),
                )
        ]

    -- It does not matter where it breaks off: the victims' units are as large together as the new one.
    apply_bytes :
        (m : MultiQueue) (colds : List ℕ) (hot : ℕ)
        → All (λ h. h < n) colds
        → hot < n
        → one_unit_size (m.readers hot) ≤ unit_sizes m.readers colds
        → loaded (apply_adjustment double rate read_block m colds hot).readers n
          ≤ loaded m.readers n
    unfolding apply_adjustment
    apply_bytes m colds hot lt hl exact =
        elim (Bool-cases (is_ok (evict_all double rate read_block m colds).0)) [
          | inr bad ↦ rw (bad, apply_adjustment) (evict_all_bytes m colds lt).1
          | inl good ↦ elim (load_bytes (evict_all double rate read_block m colds).1 hot hl) [
            | inl (bad, e) ↦
                rw (good, bad, apply_adjustment) (omega (arith, e, (evict_all_bytes m colds lt).1))
            | inr (fine, e) ↦
                rw (good, fine, apply_adjustment)
                  (omega (
                    arith,
                    e,
                    (evict_all_bytes m colds lt).2 good,
                    (evict_all_bytes m colds lt).0 hot,
                  ))
          ]
        ]

    -- However an adjustment ends, whether nothing is exchanged, a read fails or a victim has nothing to
    -- give: the loaded filters take no more memory than before.
    pub adjustment_memory :
        (m : MultiQueue) (hot sn : ℕ)
        → All (All (λ h. h < n)) m.queues
        → hot < n
        → one_unit_size (m.readers hot) < 2 ^ 64
        → loaded (adjustment double rate read_block m hot sn).readers n ≤ loaded m.readers n
    unfolding adjustment
    adjustment_memory m hot sn lt hl small = elim (Bool-cases (length colds == 0)) [
      | inl none_cold ↦ rw (none_cold, adjustment) (ground arith)
      | inr some_cold ↦
          let bound =
            apply_bytes (record m { adjustment_time = (m.adjustment_time + 1) % 2 ^ 64 }) colds hot
              (find_cold_filter-All (λ h. h < n) m sn memory lt) hl
              (omega (
                arith,
                mod-le (unit_sizes m.readers colds) (2 ^ 64),
                find_cold_filter_exact m sn memory small (λ e. absurd (ground arith)),
              )) in
          rw (some_cold, adjustment) (ground arith)
    ]
      where
        memory : ℕ
        memory = one_unit_size (m.readers hot)

        colds : List ℕ
        colds = find_cold_filter m memory sn
