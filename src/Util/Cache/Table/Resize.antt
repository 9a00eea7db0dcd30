-- ===== src/Util/Cache/Table/Resize.antt =====
-- `HandleTable::Resize` of util/cache.cc: moving all handles to new buckets loses none.
use rally_db.Prelude.{
  ℕ, suc, ◌-◌, ◌<◌, ◌≤◌, List, [], ◌∷◌, ◌≡◌, ◌≢◌, refl, sym, ap, ◌∙◌, Option, none, some, arith,
  ◌==◌, ==_iff, if◌then◌else◌, Bool-cases, inl, inr, All, get_or,
}
use rally_db.Util.Coding.{Bytes}
use rally_db.Util.Cache.Table.{
  LruHandle, Chain, matches, find, slot, chain_of, push, move_chain, move_all,
}
use rally_db.Util.Cache.Table.Chain.{matches_eq, matches_sym, find_same, IsDistinct}
use rally_db.Util.Cache.Table.Bucket.{IsPlaced, held, held-set, set-IsPlaced}

abbrev pub either : Option LruHandle → Option LruHandle → Option LruHandle
either none b = b
either (some a) b = some a

pub either-none : (a : Option LruHandle) → either a none ≡ a
either-none none = refl
either-none (some a) = refl

module _ (n : ℕ) where
  pub held-push :
      (h : LruHandle) (list : List Chain)
      → IsPlaced n list
      → (key : Bytes) (hash : ℕ)
      → held n (push n h list) key hash
        ≡ (if matches key hash h then some h else held n list key hash)
  unfolding push
  held-push h list table key hash =
      held-set n list table h (h ∷ chain_of n list h.hash) key hash (some h) (unfold find in refl)

  push-IsPlaced :
      (h : LruHandle) (list : List Chain)
      → IsPlaced n list
      → held n list h.key h.hash ≡ none
      → IsPlaced n (push n h list)
  unfolding push
  push-IsPlaced h list table absent =
      set-IsPlaced n list table h (h ∷ chain_of n list h.hash) (refl, table.placed (slot h.hash n))
        (absent, table.distinct (slot h.hash n))

  -- No handle of the chain is held.
  abbrev pub Absent : List Chain → Chain → Type 0
  Absent list = All (λ x. held n list x.key x.hash ≡ none)

  Absent-push :
      (h : LruHandle) (chain : Chain) (list : List Chain)
      → IsPlaced n list
      → find h.key h.hash chain ≡ none
      → Absent list chain
      → Absent (push n h list) chain
  unfolding find
  Absent-push h [] list table apart absent = tt
  Absent-push h (x ∷ chain) list table apart (a, absent) = (
    ground (arith, held-push h list table x.key x.hash, matches_sym x h),
    Absent-push h chain list table (ground arith) absent,
  )

  move_chain_lem :
      (chain : Chain) (list : List Chain)
      → IsPlaced n list
      → IsDistinct chain
      → Absent list chain
      → IsPlaced n (move_chain n chain list)
        × ((key : Bytes) (hash : ℕ)
            → held n (move_chain n chain list) key hash
              ≡ either (find key hash chain) (held n list key hash))
  unfolding move_chain find
  move_chain_lem [] list table distinct absent = (table, λ key hash. refl)
  move_chain_lem (h ∷ chain) list table (apart, distinct) (a, absent) =
      let (placed, reads) =
        move_chain_lem chain (push n h list) (push-IsPlaced h list table a) distinct
          (Absent-push h chain list table apart absent) in
      (
        placed,
        λ key hash. elim (Bool-cases (matches key hash h)) [
          | inl mine ↦ ground (
            arith,
            reads key hash,
            held-push h list table key hash,
            find_same key hash h chain mine,
          )
          | inr other ↦ ground (arith, reads key hash, held-push h list table key hash)
        ],
      )

  module _ (m : ℕ) where
    -- The chains from bucket `j` on of a table with `m` buckets.
    abbrev pub From : ℕ → List Chain → Type 0
    From j [] = Unit {0}
    From j (chain ∷ chains) =
        All (λ h. slot h.hash m ≡ j) chain × IsDistinct chain × From (suc j) chains

    pub found : List Chain → Bytes → ℕ → Option LruHandle
    found [] key hash = none
    found (chain ∷ chains) key hash = either (find key hash chain) (found chains key hash)

    -- A handle of another bucket is not found.
    find_elsewhere :
        (j : ℕ) (chain : Chain) (key : Bytes) (hash : ℕ)
        → All (λ h. slot h.hash m ≡ j) chain
        → slot hash m ≢ j
        → find key hash chain ≡ none
    unfolding find
    find_elsewhere j [] key hash all other = refl
    find_elsewhere j (x ∷ chain) key hash (here, all) other =
        elim (Bool-cases (matches key hash x)) [
          | inl mine ↦
              absurd (other (ap (λ (y : ℕ). slot y m) (sym (matches_eq key hash x mine).0) ∙ here))
          | inr apart ↦ ground (arith, find_elsewhere j chain key hash all other)
        ]

    found_before :
        (j : ℕ) (chains : List Chain) (key : Bytes) (hash : ℕ)
        → From j chains
        → slot hash m < j
        → found chains key hash ≡ none
    unfolding found
    found_before j [] key hash from lt = refl
    found_before j (chain ∷ chains) key hash (all, distinct, from) lt =
        rw (find_elsewhere j chain key hash all (λ e. absurd (omega arith)))
          (found_before (suc j) chains key hash from (omega arith))

    pub found_at :
        (j : ℕ) (chains : List Chain) (key : Bytes) (hash : ℕ)
        → From j chains
        → j ≤ slot hash m
        → found chains key hash ≡ find key hash (get_or chains (slot hash m - j) [])
    unfolding found
    found_at j [] key hash from le = unfold find in refl
    found_at j (chain ∷ chains) key hash (all, distinct, from) le =
        elim (Bool-cases (slot hash m == j)) [
          | inl here ↦
              let e : slot hash m ≡ j = (==_iff (slot hash m) j).0 here in
              let first : slot hash m - j ≡ 0 = omega arith in
              rw (first, found_before (suc j) chains key hash from (omega arith))
                (either-none (find key hash chain))
          | inr there ↦
              let other : slot hash m ≢ j = λ e. cc (there, (==_iff (slot hash m) j).1 e) in
              let next : slot hash m - j ≡ suc (slot hash m - suc j) = ground arith in
              rw (next, find_elsewhere j chain key hash all other)
                (found_at (suc j) chains key hash from (ground arith))
        ]

    -- A handle of one chain is in no later one.
    found_once :
        (j : ℕ) (chain : Chain) (chains : List Chain) (key : Bytes) (hash : ℕ)
        → From j (chain ∷ chains)
        → (rest : Option LruHandle)
        → either (found chains key hash) (either (find key hash chain) rest)
          ≡ either (found (chain ∷ chains) key hash) rest
    unfolding found
    found_once j chain chains key hash (all, distinct, from) rest =
        elim (Bool-cases (slot hash m == j)) [
          | inl here ↦
              ground (
                arith,
                found_before (suc j) chains key hash from,
                either-none (find key hash chain),
              )
          | inr there ↦
              let other : slot hash m ≢ j = λ e. cc (there, (==_iff (slot hash m) j).1 e) in
              rw (find_elsewhere j chain key hash all other)
        ]

    unfoldable pub AllAbsent : List Chain → List Chain → Type 0
    AllAbsent list [] = Unit {0}
    AllAbsent list (chain ∷ chains) = Absent list chain × AllAbsent list chains

    -- What stands in later buckets is still absent when a chain has moved.
    later_absent :
        (j i : ℕ) (chain : Chain) (chains list list' : List Chain)
        → j < i
        → All (λ h. slot h.hash m ≡ j) chain
        → From i chains
        → ((key : Bytes) (hash : ℕ)
            → held n list' key hash ≡ either (find key hash chain) (held n list key hash))
        → AllAbsent list chains
        → AllAbsent list' chains
    unfolding AllAbsent
    later_absent j i chain [] list list' lt here from reads absent = tt
    later_absent j i chain (c ∷ chains) list list' lt here (all, distinct, from) reads (a, absent) =
        (
          go c all a,
          later_absent j (suc i) chain chains list list' (omega arith) here from reads absent,
        )
      where
        go : (c : Chain) → All (λ h. slot h.hash m ≡ i) c → Absent list c → Absent list' c
        go [] all a = tt
        go (x ∷ c) (at, all) (a, rest) = (
          reads x.key x.hash
              ∙ ap (λ (o : Option LruHandle). either o (held n list x.key x.hash))
                  (find_elsewhere j chain x.key x.hash here (λ e. absurd (omega arith)))
              ∙ a,
          go c all rest,
        )

    pub move_all_lem :
        (j : ℕ) (chains list : List Chain)
        → IsPlaced n list
        → From j chains
        → AllAbsent list chains
        → IsPlaced n (move_all n chains list)
          × ((key : Bytes) (hash : ℕ)
              → held n (move_all n chains list) key hash
                ≡ either (found chains key hash) (held n list key hash))
    unfolding move_all AllAbsent
    move_all_lem j [] list table from absent = (table, λ key hash. unfold found in refl)
    move_all_lem j (chain ∷ chains) list table (all, distinct, from) (a, absent) =
        let (placed, reads) = move_chain_lem chain list table distinct a in
        let (moved, finds) = move_all_lem (suc j) chains (move_chain n chain list) placed from (
          later_absent j (suc j) chain chains list (move_chain n chain list) (omega arith) all from
            reads absent) in
        (
          moved,
          λ key hash.
              finds key hash
              ∙ ap (either (found chains key hash)) (reads key hash)
              ∙ found_once j chain chains key hash (all, distinct, from) (held n list key hash),
        )
