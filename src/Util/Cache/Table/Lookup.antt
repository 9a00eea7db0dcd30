-- ===== src/Util/Cache/Table/Lookup.antt =====
-- `HandleTable` of util/cache.cc is a map from keys with their hashes to handles.
use rally_db.Prelude.{
  ℕ, zero, suc, ◌+◌, ◌-◌, ◌*◌, ◌%◌, ◌^◌, ◌<◌, ◌≤◌, List, [], ◌∷◌, ◌≡◌, refl, sym, ap, subst, ◌∙◌,
  ◌&&◌, Option, none, some, arith, ltb→lt, ltb_false→le, ◌==◌, ltb, if◌then◌else◌, Bool-cases,
  Option-cases, inl, inr, All, get_or, set, replicate, length-replicate,
}
use native.Mathlib.Nat.{mod-eq_of_lt, pow-suc, pow-le-pow_right}
use native.Mathlib.Decide.{dec_lt}
use rally_db.Prelude.Bytes.{same, eq_of_same}
use rally_db.Util.Coding.{Bytes}
use rally_db.Util.Cache.Table.{
  LruHandle, Chain, HandleTable, matches, find, slot, chain_of, put_at, cut_at, lookup, grow,
  resize, insert, remove, move_all, new_table,
}
use rally_db.Util.Cache.Table.Chain.{
  IsDistinct, find-matches, matches_eq, find-put_at, find-cut_at, put_at-IsDistinct,
  cut_at-IsDistinct, All-put_at, All-cut_at,
}
use rally_db.Util.Cache.Table.Bucket.{IsPlaced, held, held-set, set-IsPlaced}
use rally_db.Util.Cache.Table.Resize.{
  either, From, AllAbsent, found, found_at, move_all_lem, either-none,
}

-- Doubling from 4 on ends at a power of two that is not below the number of entries.
grow_power :
    (fuel k elems : ℕ)
    → k + fuel ≡ 32
    → 0 < fuel
    → elems ≤ 2 ^ 31
    → (l : ℕ) × (grow fuel (2 ^ k) elems ≡ 2 ^ l) × (elems ≤ 2 ^ l)
unfolding grow
grow_power zero k elems e some_left small = absurd (omega arith)
grow_power (suc fuel) k elems e some_left small = elim (Bool-cases (ltb (2 ^ k) elems)) [
  | inr enough ↦ (k, ground arith, ltb_false→le (2 ^ k) elems enough)
  | inl less ↦ elim (dec_lt k 31) [
    | no high ↦ absurd (
        omega (
          arith,
          pow-le-pow_right {n = 2} (omega arith) {i = 31} {j = k} (omega arith),
          ltb→lt (2 ^ k) elems less,
        ))
    | yes low ↦
        let fits : 2 ^ k * 2 < 2 ^ 32 =
          omega (arith, pow-le-pow_right {n = 2} (omega arith) {i = k} {j = 30} (omega arith)) in
        let twice : 2 ^ k * 2 % 2 ^ 32 ≡ 2 ^ suc k =
          mod-eq_of_lt fits ∙ omega (arith, pow-suc 2 k) in
        let (l, ends, le) = grow_power fuel (suc k) elems (omega arith) (omega arith) small in
        (l, ground arith, le)
  ]
]

empty_chain : (n i : ℕ) → get_or (replicate {A = Chain} n []) i [] ≡ []
empty_chain zero i = refl
empty_chain (suc n) zero = refl
empty_chain (suc n) (suc i) = empty_chain n i

empty-IsPlaced : (n k : ℕ) → n ≡ 2 ^ k → IsPlaced n (replicate n [])
empty-IsPlaced n k e = record {
  width = length-replicate n [];
  power = (k, e);
  placed = λ i. rw (empty_chain n i) tt;
  distinct = λ i. rw (empty_chain n i) tt;
}

empty_holds : (n : ℕ) (key : Bytes) (hash : ℕ) → held n (replicate n []) key hash ≡ none
empty_holds n key hash = rw (empty_chain n (slot hash n)) (unfold find in refl)

module _ (n m : ℕ) where
  empty_absent : (chains : List Chain) → AllAbsent n m (replicate n []) chains
  unfolding AllAbsent
  empty_absent [] = tt
  empty_absent (chain ∷ chains) = (go chain, empty_absent chains)
    where
      go : (c : Chain) → All (λ x. held n (replicate n []) x.key x.hash ≡ none) c
      go [] = tt
      go (x ∷ c) = (empty_holds n x.key x.hash, go c)

  From-IsPlaced :
      (j : ℕ) (list : List Chain)
      → ((i : ℕ) → All (λ h. slot h.hash m ≡ j + i) (get_or list i []))
      → ((i : ℕ) → IsDistinct (get_or list i []))
      → From n m j list
  From-IsPlaced j [] placed distinct = tt
  From-IsPlaced j (c ∷ cs) placed distinct = (
    subst (λ (x : ℕ). All (λ h. slot h.hash m ≡ x) c) (omega arith) (placed 0),
    distinct 0,
    From-IsPlaced (suc j) cs
        (λ i.
          subst (λ (x : ℕ). All (λ h. slot h.hash m ≡ x) (get_or cs i [])) (omega arith)
            (placed (suc i)))
        (λ i. distinct (suc i)),
  )

abbrev pub IsTable : HandleTable → Type 0
IsTable t = IsPlaced t.length t.list

pub new_table-IsTable : IsTable new_table
unfolding new_table resize grow move_all
new_table-IsTable = empty-IsPlaced 4 2 refl

module _ (t : HandleTable) (table : IsTable t) where
  -- Moving to any power of two of buckets.
  move_to :
      (n k : ℕ)
      → n ≡ 2 ^ k
      → IsPlaced n (move_all n t.list (replicate n []))
        × ((key : Bytes) (hash : ℕ)
            → held n (move_all n t.list (replicate n [])) key hash ≡ held t.length t.list key hash)
  move_to n k power =
      let from =
        From-IsPlaced n t.length 0 t.list
          (λ i.
            subst (λ (x : ℕ). All (λ h. slot h.hash t.length ≡ x) (get_or t.list i []))
              (omega arith) (table.placed i))
          table.distinct in
      let (placed, reads) =
        move_all_lem n t.length 0 t.list (replicate n []) (empty-IsPlaced n k power) from
          (empty_absent n t.length t.list) in
      (
        placed,
        λ key hash.
            reads key hash
            ∙ ap (either (found n t.length t.list key hash)) (empty_holds n key hash)
            ∙ either-none (found n t.length t.list key hash)
            ∙ found_at n t.length 0 t.list key hash from (omega arith)
            ∙ ap (λ (i : ℕ). find key hash (get_or t.list i [])) (omega arith),
      )

  resize_lem :
      t.elems ≤ 2 ^ 31
      → IsTable (resize t)
        × ((key : Bytes) (hash : ℕ) → lookup key hash (resize t) ≡ lookup key hash t)
  unfolding resize lookup
  resize_lem small =
      let (k, power, _) = grow_power 30 2 t.elems refl (omega arith) small in
      move_to (grow 30 4 t.elems) k power

-- Insert gives the handle that stood under the key, and afterwards the table holds the new one there
-- and everything else as before. Resizing changes nothing in this.
pub lookup-insert :
    (t : HandleTable) (h : LruHandle)
    → IsTable t
    → t.elems < 2 ^ 31
    → ((insert h t).0 ≡ lookup h.key h.hash t)
      × IsTable (insert h t).1
      × ((key : Bytes) (hash : ℕ)
          → lookup key hash (insert h t).1
            ≡ (if matches key hash h then some h else lookup key hash t))
lookup-insert t h table small = go (lookup h.key h.hash t) refl
  where
    chain : Chain
    chain = put_at h (chain_of t.length t.list h.hash)

    list : List Chain
    list = set t.list (slot h.hash t.length) chain

    placed : IsPlaced t.length list
    placed =
        set-IsPlaced t.length t.list table h chain
          (All-put_at (λ x. slot x.hash t.length ≡ slot h.hash t.length) h
            (chain_of t.length t.list h.hash) (table.placed (slot h.hash t.length)) refl)
          (put_at-IsDistinct h (chain_of t.length t.list h.hash)
            (table.distinct (slot h.hash t.length)))

    reads :
        (key : Bytes) (hash : ℕ)
        → held t.length list key hash
          ≡ (if matches key hash h then some h else held t.length t.list key hash)
    reads key hash =
        held-set t.length t.list table h chain key hash (some h)
          (find-put_at key hash h (chain_of t.length t.list h.hash))

    more : HandleTable
    more = record t { list = list; elems = (t.elems + 1) % 2 ^ 32 }

    resized :
        IsTable (resize more)
        × ((key : Bytes) (hash : ℕ) → lookup key hash (resize more) ≡ lookup key hash more)
    resized = resize_lem more placed (omega arith)

    go :
        (old : Option LruHandle)
        → lookup h.key h.hash t ≡ old
        → ((insert h t).0 ≡ lookup h.key h.hash t)
          × IsTable (insert h t).1
          × ((key : Bytes) (hash : ℕ)
              → lookup key hash (insert h t).1
                ≡ (if matches key hash h then some h else lookup key hash t))
    go (some x) e =
        let is : insert h t ≡ (some x, record t { list = list }) = unfold insert in ground arith in
        rw is (sym e, placed, unfold lookup in reads)
    go none e = elim (Bool-cases (ltb t.length ((t.elems + 1) % 2 ^ 32))) [
      | inl full ↦
          let is : insert h t ≡ (none, resize more) = unfold insert in ground arith in
          rw is
            (sym e, resized.0, λ key hash. resized.1 key hash ∙ (unfold lookup in reads key hash))
      | inr roomy ↦
          let is : insert h t ≡ (none, more) = unfold insert in ground arith in
          rw is (sym e, placed, unfold lookup in reads)
    ]

-- What `Remove` is to do.
abbrev Removed : HandleTable → Bytes → ℕ → Type 0
Removed t key hash =
    ((remove key hash t).0 ≡ lookup key hash t)
    × IsTable (remove key hash t).1
    × ((key' : Bytes) (hash' : ℕ)
        → lookup key' hash' (remove key hash t).1
          ≡ (if hash == hash' && same key' key then none else lookup key' hash' t))

module _ (t : HandleTable) (table : IsTable t) where
  Removed-none : (key : Bytes) (hash : ℕ) → lookup key hash t ≡ none → Removed t key hash
  Removed-none key hash e =
      let is : remove key hash t ≡ (none, t) = unfold remove in ground arith in
      rw is (sym e, table, still)
    where
      still :
          (key' : Bytes) (hash' : ℕ)
          → lookup key' hash' t
            ≡ (if hash == hash' && same key' key then none else lookup key' hash' t)
      still key' hash' = elim (Bool-cases (hash == hash' && same key' key)) [
        | inr other ↦ ground arith
        | inl mine ↦
            let hashes : hash ≡ hash' = ground arith in
            let keys : key' ≡ key = eq_of_same key' key (ground arith) in
            let gone : lookup key' hash' t ≡ none = rw (keys, ← hashes) e in ground arith
      ]

  -- A handle that stands in the table, by its own key.
  Removed-some : (x : LruHandle) → lookup x.key x.hash t ≡ some x → Removed t x.key x.hash
  Removed-some x e =
      let n = t.length in
      let old = chain_of n t.list x.hash in
      let chain = cut_at x.key x.hash old in
      let found : find x.key x.hash old ≡ some x = unfold lookup in e in
      let t' = record t {
        list = set t.list (slot x.hash n) chain;
        elems = (t.elems + 2 ^ 32 - 1) % 2 ^ 32;
      } in
      let is : remove x.key x.hash t ≡ (some x, t') = unfold remove in ground arith in
      rw is (
        sym e,
        set-IsPlaced n t.list table x chain
            (All-cut_at (λ y. slot y.hash n ≡ slot x.hash n) x.key x.hash old
              (table.placed (slot x.hash n)))
            (cut_at-IsDistinct x.key x.hash old (table.distinct (slot x.hash n))),
        λ key' hash'.
            unfold lookup in
            held-set n t.list table x chain key' hash' none
              (find-cut_at key' x.key hash' x.hash x old (table.distinct (slot x.hash n)) found),
      )

-- Remove gives the handle that stood under the key, and afterwards the table holds none there and
-- everything else as before.
pub lookup-remove :
    (t : HandleTable) (key : Bytes) (hash : ℕ)
    → IsTable t
    → ((remove key hash t).0 ≡ lookup key hash t)
      × IsTable (remove key hash t).1
      × ((key' : Bytes) (hash' : ℕ)
          → lookup key' hash' (remove key hash t).1
            ≡ (if hash == hash' && same key' key then none else lookup key' hash' t))
lookup-remove t key hash table = elim (Option-cases (lookup key hash t)) [
  | inl e ↦ Removed-none t table key hash e
  | inr (x, e) ↦
      let found : find key hash (chain_of t.length t.list hash) ≡ some x = unfold lookup in e in
      let (hashes, keys) = matches_eq key hash x (find-matches key hash x _ found) in
      let by_own : lookup x.key x.hash t ≡ some x = cc (hashes, keys, e) in
      subst (λ (k : Bytes). Removed t k hash) keys
        (subst (Removed t x.key) hashes (Removed-some t table x by_own))
]
