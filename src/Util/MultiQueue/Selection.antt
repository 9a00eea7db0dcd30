-- ===== src/Util/MultiQueue/Selection.antt =====
-- Which filters the search for cold ones takes, and how much memory they free.
use rally_db.Prelude.{
  ℕ, zero, suc, ◌+◌, ◌%◌, ◌^◌, ◌<◌, List, [], ◌∷◌, ◌++◌, ◌≡◌, refl, ◌≢◌, true, false, arith, ltb,
  ◌==◌, if◌then◌else◌, get_or, All, All-append, All-reverse, All-get_or, Bool-cases, inl, inr,
  Bool-both,
}
use rally_db.Table.FilterBlock.{all_filter_units_number, life_time}
use rally_db.Table.FilterBlock.Reader.{FilterBlockReader, is_cold, one_unit_size}
use rally_db.Util.MultiQueue.{MultiQueue}
use rally_db.Util.MultiQueue.Cold.{take_cold, find_cold_in, find_cold_from, find_cold_filter}
use mathlib.Core.List.{reverse}

-- The bytes of one unit of each handle.
unfoldable pub unit_sizes : (ℕ → FilterBlockReader) → List ℕ → ℕ
unit_sizes readers [] = 0
unit_sizes readers (h ∷ hs) = one_unit_size (readers h) + unit_sizes readers hs

-- A filter that may be taken: cold at `sn`, and with an access time that is not 0.
abbrev pub IsTakeable : (ℕ → FilterBlockReader) → ℕ → ℕ → Type 0
IsTakeable readers sn h = (is_cold (readers h) sn ≡ true) × ((readers h).access_time ≢ 0)

module _ (readers : ℕ → FilterBlockReader) where
  unit_sizes-append :
      (fs gs : List ℕ)
      → unit_sizes readers (fs ++ gs) ≡ unit_sizes readers fs + unit_sizes readers gs
  unfolding unit_sizes
  unit_sizes-append [] gs = omega arith
  unit_sizes-append (f ∷ fs) gs = omega (arith, unit_sizes-append fs gs)

  -- What is still to be freed and what the chosen filters free: their sum, in 64 bits.
  abbrev pub balance : ℕ × List ℕ → ℕ
  balance found = (found.0 + unit_sizes readers found.1) % 2 ^ 64

  take_balance :
      (e memory : ℕ) (filters : List ℕ)
      → memory < 2 ^ 64
      → ((take_cold (readers e) e memory filters).0 < 2 ^ 64)
        × (balance (take_cold (readers e) e memory filters) ≡ balance (memory, filters))
  unfolding take_cold unit_sizes
  take_balance e memory filters h = ground (arith, unit_sizes-append filters (e ∷ []))

  module _ (sn : ℕ) where
    take-IsTakeable :
        (e memory : ℕ) (filters : List ℕ)
        → is_cold (readers e) sn ≡ true
        → All (IsTakeable readers sn) filters
        → All (IsTakeable readers sn) (take_cold (readers e) e memory filters).1
    unfolding take_cold
    take-IsTakeable e memory filters cold h = elim (Bool-cases ((readers e).access_time == 0)) [
      | inl z ↦ rw z h
      | inr p ↦
          rw p (All-append (IsTakeable readers sn) filters (e ∷ []) h ((cold, ground arith), tt))
    ]

    in-IsTakeable :
        (es : List ℕ) (memory : ℕ) (filters : List ℕ)
        → All (IsTakeable readers sn) filters
        → All (IsTakeable readers sn) (find_cold_in readers sn es memory filters).1
    unfolding find_cold_in
    in-IsTakeable [] memory filters h = h
    in-IsTakeable (e ∷ es) memory filters h = elim (Bool-cases (is_cold (readers e) sn)) [
      | inr warm ↦ rw warm h
      | inl cold ↦ rw cold (
          Bool-both (ltb 0 (take_cold (readers e) e memory filters).0)
            (λ b.
              All (IsTakeable readers sn)
                (if b
                  then find_cold_in readers sn es (take_cold (readers e) e memory filters).0
                      (take_cold (readers e) e memory filters).1
                  else take_cold (readers e) e memory filters).1)
            (in-IsTakeable es _ _ (take-IsTakeable e memory filters cold h))
            (take-IsTakeable e memory filters cold h))
    ]

    in_balance :
        (es : List ℕ) (memory : ℕ) (filters : List ℕ)
        → memory < 2 ^ 64
        → ((find_cold_in readers sn es memory filters).0 < 2 ^ 64)
          × (balance (find_cold_in readers sn es memory filters) ≡ balance (memory, filters))
    unfolding find_cold_in
    in_balance [] memory filters h = (h, refl)
    in_balance (e ∷ es) memory filters h = ground (
      arith,
      take_balance e memory filters h,
      in_balance es (take_cold (readers e) e memory filters).0
          (take_cold (readers e) e memory filters).1,
    )

module _ (m : MultiQueue) (sn : ℕ) where
  from-IsTakeable :
      (i memory : ℕ) (filters : List ℕ)
      → All (IsTakeable m.readers sn) filters
      → All (IsTakeable m.readers sn) (find_cold_from m sn i memory filters).1
  unfolding find_cold_from
  from-IsTakeable zero memory filters h = h
  from-IsTakeable (suc i) memory filters h =
      Bool-both (ltb 0 memory)
        (λ b.
          All (IsTakeable m.readers sn)
            (if b then find_cold_from m sn i found.0 found.1 else (memory, filters)).1)
        (from-IsTakeable i found.0 found.1 (in-IsTakeable m.readers sn _ memory filters h)) h
    where
      found : ℕ × List ℕ
      found = find_cold_in m.readers sn (reverse (get_or m.queues (suc i) [])) memory filters

  from_balance :
      (i memory : ℕ) (filters : List ℕ)
      → memory < 2 ^ 64
      → ((find_cold_from m sn i memory filters).0 < 2 ^ 64)
        × (balance m.readers (find_cold_from m sn i memory filters)
            ≡ balance m.readers (memory, filters))
  unfolding find_cold_from
  from_balance zero memory filters h = (h, refl)
  from_balance (suc i) memory filters h = ground (
    arith,
    in_balance m.readers sn queue memory filters h,
    from_balance i (find_cold_in m.readers sn queue memory filters).0
        (find_cold_in m.readers sn queue memory filters).1,
  )
    where
      queue : List ℕ
      queue = reverse (get_or m.queues (suc i) [])

  -- Every filter that `FindColdFilter` chooses is cold at the sequence number, and its access time is not 0.
  pub find_cold_filter-IsTakeable :
      (memory : ℕ) → All (IsTakeable m.readers sn) (find_cold_filter m memory sn)
  unfolding find_cold_filter
  find_cold_filter-IsTakeable memory =
      Bool-both (ltb 0 found.0) (λ b. All (IsTakeable m.readers sn) (if b then [] else found.1)) tt
        (from-IsTakeable all_filter_units_number memory [] tt)
    where
      found : ℕ × List ℕ
      found = find_cold_from m sn all_filter_units_number memory []

  -- If `FindColdFilter` chooses any filters, one unit of each frees what was asked for exactly, in
  -- 64-bit arithmetic: more is never freed, and less is not either.
  pub find_cold_filter_exact :
      (memory : ℕ)
      → memory < 2 ^ 64
      → find_cold_filter m memory sn ≢ []
      → unit_sizes m.readers (find_cold_filter m memory sn) % 2 ^ 64 ≡ memory
  unfolding find_cold_filter unit_sizes
  find_cold_filter_exact memory h some_chosen =
      ground (arith, from_balance all_filter_units_number memory [] h)

  -- A reader that was used under `sn` itself is not among the filters that are chosen to be evicted
  -- for it, since sequence numbers stay far below 2^64.
  pub find_cold_filter_spares_hot :
      (memory hot : ℕ)
      → (m.readers hot).sequence ≡ sn
      → sn + life_time < 2 ^ 64
      → All (λ e. e ≢ hot) (find_cold_filter m memory sn)
  find_cold_filter_spares_hot memory hot used small =
      spares (find_cold_filter m memory sn) (find_cold_filter-IsTakeable memory)
    where
      warm : is_cold (m.readers hot) sn ≡ false
      warm = unfold is_cold in rw used (ground arith)

      spares : (es : List ℕ) → All (IsTakeable m.readers sn) es → All (λ e. e ≢ hot) es
      spares [] t = tt
      spares (e ∷ es) t = (λ p. cc (warm, t.0.0, p), spares es t.1)

-- The chosen filters are taken from the queues.
module _ (P : ℕ → Type 0) where
  take-All :
      (readers : ℕ → FilterBlockReader) (e memory : ℕ) (filters : List ℕ)
      → P e
      → All P filters
      → All P (take_cold (readers e) e memory filters).1
  unfolding take_cold
  take-All readers e memory filters he h = elim (Bool-cases ((readers e).access_time == 0)) [
    | inl z ↦ rw z h
    | inr p ↦ rw p (All-append P filters (e ∷ []) h (he, tt))
  ]

  in-All :
      (readers : ℕ → FilterBlockReader) (sn : ℕ) (es : List ℕ) (memory : ℕ) (filters : List ℕ)
      → All P es
      → All P filters
      → All P (find_cold_in readers sn es memory filters).1
  unfolding find_cold_in
  in-All readers sn [] memory filters he h = h
  in-All readers sn (e ∷ es) memory filters he h =
      Bool-both (is_cold (readers e) sn)
        (λ b.
          All P
            (if b
              then (if ltb 0 taken.0 then find_cold_in readers sn es taken.0 taken.1 else taken)
              else (memory, filters)).1)
        (Bool-both (ltb 0 taken.0)
          (λ b. All P (if b then find_cold_in readers sn es taken.0 taken.1 else taken).1)
          (in-All readers sn es taken.0 taken.1 he.1 kept) kept)
        h
    where
      taken : ℕ × List ℕ
      taken = take_cold (readers e) e memory filters

      kept : All P taken.1
      kept = take-All readers e memory filters he.0 h

  from-All :
      (m : MultiQueue) (sn i memory : ℕ) (filters : List ℕ)
      → All (All P) m.queues
      → All P filters
      → All P (find_cold_from m sn i memory filters).1
  unfolding find_cold_from
  from-All m sn zero memory filters hq h = h
  from-All m sn (suc i) memory filters hq h =
      Bool-both (ltb 0 memory)
        (λ b. All P (if b then find_cold_from m sn i found.0 found.1 else (memory, filters)).1)
        (from-All m sn i found.0 found.1 hq (
          in-All m.readers sn _ memory filters
            (All-reverse P queue (All-get_or (All P) m.queues (suc i) [] hq tt)) h))
        h
    where
      queue : List ℕ
      queue = get_or m.queues (suc i) []

      found : ℕ × List ℕ
      found = find_cold_in m.readers sn (reverse queue) memory filters

  pub find_cold_filter-All :
      (m : MultiQueue) (sn memory : ℕ) → All (All P) m.queues → All P (find_cold_filter m memory sn)
  unfolding find_cold_filter
  find_cold_filter-All m sn memory hq =
      Bool-both (ltb 0 found.0) (λ b. All P (if b then [] else found.1)) tt
        (from-All m sn all_filter_units_number memory [] hq tt)
    where
      found : ℕ × List ℕ
      found = find_cold_from m sn all_filter_units_number memory []
