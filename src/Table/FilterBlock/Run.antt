-- ===== src/Table/FilterBlock/Run.antt =====
-- A table's blocks, given to a `FilterBlockBuilder` one after the other: each key comes to stand in the
-- group of its block's range.
use rally_db.Prelude.{
  ℕ, zero, suc, ◌+◌, ◌/◌, ◌≤◌, List, [], ◌∷◌, ◌++◌, ◌≡◌, refl, ap, ◌⊎◌, inl, inr, false, arith, ltb,
  ◌==◌, length, length-append, append_assoc, append-nil, get_or, get_or-append, Bool-cases,
}
use rally_db.Prelude.Bytes.{Among}
use rally_db.Util.Coding.{Bytes}
use rally_db.Table.FilterBlock.{FilterPolicy, filter_base}
use rally_db.Table.FilterBlock.Builder.{
  FilterBlockBuilder, add_key, generate_filter, start_loop, start_block, return_filters,
}
use rally_db.Table.FilterBlock.Content.{Waits, starts}
use rally_db.Table.FilterBlock.Groups.{
  IsFilterPolicy, Holds, offsets, piece, add_key-Holds, generate_filter-Holds,
}
use native.Mathlib.Decide.{dec_lt}

-- `AddKey` for each key of a block.
unfoldable pub add_keys : FilterBlockBuilder → List Bytes → FilterBlockBuilder
add_keys b [] = b
add_keys b (k ∷ ks) = add_keys (add_key b k) ks

-- Group `j`, the open one behind the closed ones.
abbrev pub group : List (List Bytes) → List Bytes → ℕ → List Bytes
group gs ks j = get_or (gs ++ (ks ∷ [])) j []

-- How many keys there are.
unfoldable pub total : List (List Bytes) → ℕ
total [] = 0
total (g ∷ gs) = length g + total gs

total-append : (gs hs : List (List Bytes)) → total (gs ++ hs) ≡ total gs + total hs
unfolding total
total-append [] hs = omega arith
total-append (g ∷ gs) hs = omega (arith, total-append gs hs)

total_close :
    (gs : List (List Bytes)) (ks : List Bytes) → total (gs ++ (ks ∷ [])) ≡ total gs + length ks
unfolding total
total_close gs ks = omega (arith, total-append gs (ks ∷ []))

pub length-get_or : (gs : List (List Bytes)) (j : ℕ) → length (get_or gs j []) ≤ total gs
unfolding total
length-get_or [] j = omega arith
length-get_or (g ∷ gs) zero = omega arith
length-get_or (g ∷ gs) (suc j) = omega (arith, length-get_or gs j)

-- No key leaves its group.
abbrev pub Grows : List (List Bytes) → List Bytes → List (List Bytes) → List Bytes → Type 0
Grows gs ks gs' ks' = (j : ℕ) (k : Bytes) → Among k (group gs ks j) → Among k (group gs' ks' j)

Among-append : (k : Bytes) (xs ys : List Bytes) → Among k xs → Among k (xs ++ ys)
Among-append k [] ys m = absurd m
Among-append k (x ∷ xs) ys (inl e) = inl e
Among-append k (x ∷ xs) ys (inr m) = inr (Among-append k xs ys m)

Among-append_right : (k : Bytes) (xs ys : List Bytes) → Among k ys → Among k (xs ++ ys)
Among-append_right k [] ys m = m
Among-append_right k (x ∷ xs) ys m = inr (Among-append_right k xs ys m)

group_open : (gs : List (List Bytes)) (ks : List Bytes) → group gs ks (length gs) ≡ ks
group_open [] ks = refl
group_open (g ∷ gs) ks = group_open gs ks

group_beyond : (gs : List (List Bytes)) (j : ℕ) → length gs ≤ j → get_or gs j [] ≡ []
group_beyond [] j h = refl
group_beyond (g ∷ gs) zero h = absurd (omega arith)
group_beyond (g ∷ gs) (suc j) h = group_beyond gs j (omega arith)

-- Another group behind them.
Grows-close : (gs : List (List Bytes)) (ks : List Bytes) → Grows gs ks (gs ++ (ks ∷ [])) []
Grows-close gs ks j k m = elim (dec_lt j (length (gs ++ (ks ∷ [])))) [
  | yes lt ↦ rw (get_or-append (gs ++ (ks ∷ [])) ([] ∷ []) j [] lt) m
  | no ge ↦ absurd (rw (group_beyond (gs ++ (ks ∷ [])) j (omega arith)) at m)
]

Grows-add : (gs : List (List Bytes)) (ks new : List Bytes) → Grows gs ks gs (ks ++ new)
Grows-add [] ks new zero k m = Among-append k ks new m
Grows-add [] ks new (suc j) k m = m
Grows-add (g ∷ gs) ks new zero k m = m
Grows-add (g ∷ gs) ks new (suc j) k m = Grows-add gs ks new j k m

-- The blocks of a table: their offsets and their keys.
unfoldable pub run_blocks :
    FilterPolicy → FilterBlockBuilder → List (ℕ × List Bytes) → FilterBlockBuilder
run_blocks policy b [] = b
run_blocks policy b ((o, ks) ∷ blocks) =
    run_blocks policy (add_keys (start_block policy b o) ks) blocks

-- No block is in front of the one before it.
unfoldable pub IsRising : ℕ → List (ℕ × List Bytes) → Type 0
IsRising last [] = Unit {0}
IsRising last ((o, ks) ∷ blocks) = (last ≤ o) × IsRising o blocks

-- How many keys the blocks have.
unfoldable pub keys_number : List (ℕ × List Bytes) → ℕ
keys_number [] = 0
keys_number ((o, ks) ∷ blocks) = length ks + keys_number blocks

-- A block at the offset holds the key.
unfoldable pub InBlock : ℕ → Bytes → List (ℕ × List Bytes) → Type 0
InBlock o k [] = ⊥
InBlock o k ((o', ks) ∷ blocks) = ((o' ≡ o) × Among k ks) ⊎ InBlock o k blocks

module _ (filter : ℕ → List Bytes → Bytes) where
  add_keys-Holds :
      (b : FilterBlockBuilder) (gs : List (List Bytes)) (ks new : List Bytes)
      → Holds filter b gs ks
      → Holds filter (add_keys b new) gs (ks ++ new)
  unfolding add_keys
  add_keys-Holds b gs ks [] h = rw (append-nil ks) h
  add_keys-Holds b gs ks (k ∷ new) h =
      let back : (ks ++ (k ∷ [])) ++ new ≡ ks ++ (k ∷ new) = simp append_assoc in
      rw (← back)
        (add_keys-Holds (add_key b k) gs (ks ++ (k ∷ [])) new (add_key-Holds filter b gs ks k h))

  pub length-offsets : (n : ℕ) (gs : List (List Bytes)) → length (offsets filter n gs) ≡ length gs
  unfolding offsets
  length-offsets n [] = refl
  length-offsets n (g ∷ gs) = ap suc (length-offsets (n + length (piece filter 0 g)) gs)

-- A builder that comes behind one that held `gs` and `ks`: `closed` groups are
-- closed, and `more` keys came in.
pub record Later (filter : ℕ → List Bytes → Bytes) (b : FilterBlockBuilder) (gs : List (List Bytes))
    (ks : List Bytes) (closed more : ℕ) : Type 0 where
  pub gs' : List (List Bytes)
  pub ks' : List Bytes
  pub holds : Holds filter b gs' ks'
  pub closed_number : length gs' ≡ closed
  pub grows : Grows gs ks gs' ks'
  pub count : total gs' + length ks' ≡ total gs + length ks + more

some_wait :
    (b : FilterBlockBuilder) (k : Bytes) (ks : List Bytes)
    → Waits b (k ∷ ks)
    → (length b.start == 0) ≡ false
unfolding Waits starts
some_wait b k ks (hk, hs) =
    let n : length b.start ≡ suc (length (starts (0 + length k) ks)) = ap length hs in ground arith

module _ (policy : FilterPolicy) (is : IsFilterPolicy policy) where
  start_loop-Later :
      (fuel target : ℕ) (b : FilterBlockBuilder) (gs : List (List Bytes)) (ks : List Bytes)
      → Holds is.filter b gs ks
      → length gs ≤ target
      → target ≤ length gs + fuel
      → Later is.filter (start_loop policy fuel target b) gs ks target 0
  unfolding start_loop
  start_loop-Later zero target b gs ks h le most = record {
    gs' = gs;
    ks' = ks;
    holds = h;
    closed_number = omega arith;
    grows = λ j k m. m;
    count = omega arith;
  }
  start_loop-Later (suc fuel) target b gs ks h le most =
      let same_length : length b.filter_offsets ≡ length gs =
        rw h.offsets_held (length-offsets is.filter 0 gs) in
      elim (Bool-cases (ltb (length b.filter_offsets) target)) [
        | inl more ↦
            let grown = length-append gs (ks ∷ []) in
            let rest =
              start_loop-Later fuel target (generate_filter policy b) (gs ++ (ks ∷ [])) []
                (generate_filter-Holds policy is b gs ks h) (ground (arith, grown))
                (omega (arith, grown)) in
            rw (start_loop, more)
              (record {
                gs' = rest.gs';
                ks' = rest.ks';
                holds = rest.holds;
                closed_number = rest.closed_number;
                grows = λ j k m. rest.grows j k (Grows-close gs ks j k m);
                count = omega (arith, rest.count, total_close gs ks);
              })
        | inr done ↦
            rw (start_loop, done)
              (record {
                gs' = gs;
                ks' = ks;
                holds = h;
                closed_number = ground arith;
                grows = λ j k m. m;
                count = omega arith;
              })
      ]

  -- `StartBlock`, then `AddKey` for each key.
  block-Later :
      (last o : ℕ) (new : List Bytes) (b : FilterBlockBuilder) (gs : List (List Bytes))
      (ks : List Bytes)
      → Holds is.filter b gs ks
      → length gs ≡ last / filter_base
      → last ≤ o
      → Later is.filter (start_block policy b o) gs ks (o / filter_base) 0
  unfolding start_block
  block-Later last o new b gs ks h e le =
      start_loop-Later (o / filter_base) (o / filter_base) b gs ks h (omega arith) (omega arith)

  -- Every key of every block is in the group of its block's range.
  abbrev Found : List (List Bytes) → List Bytes → List (ℕ × List Bytes) → Type 0
  Found gs ks blocks =
      (o : ℕ) (k : Bytes) → InBlock o k blocks → Among k (group gs ks (o / filter_base))

  pub run_blocks-Later :
      (blocks : List (ℕ × List Bytes)) (last : ℕ) (b : FilterBlockBuilder) (gs : List (List Bytes))
      (ks : List Bytes)
      → Holds is.filter b gs ks
      → length gs ≡ last / filter_base
      → IsRising last blocks
      → (closed : ℕ) × (later : Later is.filter
          (run_blocks policy b blocks)
          gs
          ks
          closed
          (keys_number blocks))
        × Found later.gs' later.ks' blocks
  unfolding run_blocks IsRising InBlock keys_number
  run_blocks-Later [] last b gs ks h e rising = (
    length gs,
    record {
      gs' = gs;
      ks' = ks;
      holds = h;
      closed_number = refl;
      grows = λ j k m. m;
      count = omega arith;
    },
    λ o k m. absurd m,
  )
  run_blocks-Later ((o, new) ∷ blocks) last b gs ks h e (le, rising) =
      let s = block-Later last o new b gs ks h e le in
      let filled = add_keys-Holds is.filter (start_block policy b o) s.gs' s.ks' new s.holds in
      let (closed, later, found) =
        run_blocks-Later blocks o (add_keys (start_block policy b o) new) s.gs' (s.ks' ++ new)
          filled s.closed_number rising in
      (
        closed,
        record {
          gs' = later.gs';
          ks' = later.ks';
          holds = later.holds;
          closed_number = later.closed_number;
          grows = λ j k m. later.grows j k (Grows-add s.gs' s.ks' new j k (s.grows j k m));
          count = omega (arith, later.count, s.count, length-append s.ks' new);
        },
        λ o' k m. elim m [
          | inl (same_offset, among) ↦ later.grows (o' / filter_base) k (
              rw (← same_offset, ← s.closed_number, group_open s.gs' (s.ks' ++ new))
                (Among-append_right k s.ks' new among))
          | inr behind ↦ found o' k behind
        ],
      )

  -- `ReturnFilters` closes the open group, if there is one.
  pub return_filters-Holds :
      (b : FilterBlockBuilder) (gs : List (List Bytes)) (ks : List Bytes)
      → Holds is.filter b gs ks
      → (hs : List (List Bytes)) × Holds is.filter (return_filters policy b) hs []
        × Grows gs ks hs []
        × (total hs ≡ total gs + length ks)
  unfolding return_filters
  return_filters-Holds b gs [] h = elim (Bool-cases (length b.start == 0)) [
    | inl closed ↦ rw (return_filters, closed) (gs, h, λ j k m. m, omega arith)
    | inr is_open ↦
        rw (return_filters, is_open)
          (
            gs ++ ([] ∷ []),
            generate_filter-Holds policy is b gs [] h,
            Grows-close gs [],
            total_close gs [],
          )
  ]
  return_filters-Holds b gs (k ∷ ks) h =
      rw (return_filters, some_wait b k ks h.waits)
        (
          gs ++ ((k ∷ ks) ∷ []),
          generate_filter-Holds policy is b gs (k ∷ ks) h,
          Grows-close gs (k ∷ ks),
          total_close gs (k ∷ ks),
        )
