-- ===== src/Util/Cache/Evict.antt =====
-- Eviction in util/cache.cc: the loop of `Insert` and `Prune` take the handles that no client uses, the
-- oldest first.
use rally_db.Prelude.{
  ℕ, zero, suc, ◌+◌, ◌-◌, ◌^◌, ◌<◌, ◌≤◌, List, [], ◌∷◌, ◌++◌, append_assoc, append-nil, ◌≡◌, refl,
  sym, ap, subst, ◌∙◌, ◌⊎◌, inl, inr, false, ◌&&◌, some, arith, ◌==◌, ==_iff, ltb, ltb_false→le,
  Bool-cases, All, length, take, drop, sub64,
}
use rally_db.Prelude.Bytes.{same, eq_of_same}
use rally_db.Util.Cache.Table.{LruHandle, HandleTable, lookup, remove}
use rally_db.Util.Cache.Table.Lookup.{IsTable, lookup-remove}
use rally_db.Util.Cache.{
  LruCache, assign, without, lru_remove, unref, finish_erase, erase, evict_loop, prune_loop, prune,
}

abbrev pub total : List LruHandle → ℕ
total [] = 0
total (e ∷ handles) = e.charge + total handles

-- Not one of the handles.
abbrev pub Outside : LruHandle → List LruHandle → Type 0
Outside e = All (λ x. (x.address == e.address) ≡ false)

abbrev pub Apart : List LruHandle → Type 0
Apart [] = Unit {0}
Apart (e ∷ handles) = Outside e handles × Apart handles

-- The list of unused handles agrees with the table, the counts and the usage.
pub record IsEvictable (c : LruCache) : Type 0 where
  pub table : IsTable c.table
  pub held : All (λ e. lookup e.key e.hash c.table ≡ some e) c.lru
  pub apart : Apart c.lru
  pub unused : All (λ e. Outside e c.in_use) c.lru
  pub single : All (λ e. c.refs e.address ≡ 1) c.lru
  pub charged : c.usage ≡ total c.lru + total c.in_use
  pub fits : c.usage < 2 ^ 64

without-Outside :
    (e : LruHandle) (handles : List LruHandle)
    → Outside e handles
    → without e.address handles ≡ handles
unfolding without
without-Outside e [] h = refl
without-Outside e (x ∷ handles) (h, more) = ground (arith, without-Outside e handles more)

without_head :
    (e : LruHandle) (handles : List LruHandle) → without e.address (e ∷ handles) ≡ handles
unfolding without
without_head e handles = ground arith

module _ (old : LruHandle) (t : HandleTable) (table : IsTable t)
    (here : lookup old.key old.hash t ≡ some old) where
  -- Another handle is still held when `old` is removed.
  held_removed :
      (e : LruHandle)
      → (e.address == old.address) ≡ false
      → lookup e.key e.hash t ≡ some e
      → lookup e.key e.hash (remove old.key old.hash t).1 ≡ some e
  held_removed e other there = elim (Bool-cases (old.hash == e.hash && same e.key old.key)) [
    | inr differ ↦ ground (arith, (lookup-remove t old.key old.hash table).2 e.key e.hash)
    | inl alike ↦
        let hashes : old.hash ≡ e.hash = ground arith in
        let keys : e.key ≡ old.key = eq_of_same e.key old.key (ground arith) in
        let both : some e ≡ some old = cc (hashes, keys, here, there) in
        let is : e.address ≡ old.address = cc both in
        absurd (cc (other, (==_iff e.address old.address).1 is))
  ]

  all_held :
      (handles : List LruHandle)
      → Outside old handles
      → All (λ e. lookup e.key e.hash t ≡ some e) handles
      → All (λ e. lookup e.key e.hash (remove old.key old.hash t).1 ≡ some e) handles
  all_held [] outside held = tt
  all_held (e ∷ handles) (o, outside) (h, held) =
      (held_removed e o h, all_held handles outside held)

all_single :
    (refs : ℕ → ℕ) (old : LruHandle) (n : ℕ) (handles : List LruHandle)
    → Outside old handles
    → All (λ e. refs e.address ≡ 1) handles
    → All (λ e. assign refs old.address n e.address ≡ 1) handles
all_single refs old n [] outside single = tt
all_single refs old n (e ∷ handles) (o, outside) (h, single) =
    (ground arith, all_single refs old n handles outside single)

-- One round: the oldest handle is taken off, and its deleter is called.
module _ (c : LruCache) (old : LruHandle) (rest : List LruHandle) (order : c.lru ≡ old ∷ rest)
    (ok : IsEvictable c) where
  taken : LruCache
  taken = record c {
    usage = sub64 c.usage old.charge;
    lru = rest;
    table = (remove old.key old.hash c.table).1;
    refs = assign c.refs old.address (c.refs old.address - 1);
    in_cache = assign c.in_cache old.address false;
    deleted = c.deleted ++ old ∷ [];
  }

  held_all : All (λ e. lookup e.key e.hash c.table ≡ some e) (old ∷ rest)
  held_all = subst (All (λ e. lookup e.key e.hash c.table ≡ some e)) order ok.held

  erase-taken : erase old.key old.hash c ≡ taken
  unfolding erase finish_erase unref lru_remove taken
  erase-taken =
      let gone : (remove old.key old.hash c.table).0 ≡ some old =
        (lookup-remove c.table old.key old.hash ok.table).0 ∙ held_all.0 in
      let left : without old.address c.lru ≡ rest =
        ap (without old.address) order ∙ without_head old rest in
      let same_use : without old.address c.in_use ≡ c.in_use =
        without-Outside old c.in_use (subst (All (λ e. Outside e c.in_use)) order ok.unused).0 in
      let one : c.refs old.address ≡ 1 =
        (subst (All (λ e. c.refs e.address ≡ 1)) order ok.single).0 in
      ground arith

  taken_rest : taken.lru ≡ rest
  unfolding taken
  taken_rest = refl

  taken-IsEvictable : IsEvictable taken
  unfolding taken
  taken-IsEvictable =
      let apart = subst Apart order ok.apart in
      let unused = subst (All (λ e. Outside e c.in_use)) order ok.unused in
      let single = subst (All (λ e. c.refs e.address ≡ 1)) order ok.single in
      record {
        table = (lookup-remove c.table old.key old.hash ok.table).1;
        held = all_held old c.table ok.table held_all.0 rest apart.0 held_all.1;
        apart = apart.1;
        unused = unused.1;
        single = all_single c.refs old (c.refs old.address - 1) rest apart.0 single.1;
        charged = omega (arith, ok.charged, ap total order, ok.fits);
        fits = omega arith;
      }

-- `c'` is `c` without its `n` oldest unused handles, whose deleters have been called in this order.
abbrev pub Evicted : ℕ → LruCache → LruCache → Type 0
Evicted n c c' =
    (c'.lru ≡ drop n c.lru)
    × (c'.in_use ≡ c.in_use)
    × (c'.deleted ≡ c.deleted ++ take n c.lru)
    × (c'.capacity ≡ c.capacity)
    × IsEvictable c'

Evicted-none : (c : LruCache) → IsEvictable c → Evicted 0 c c
Evicted-none c ok = (refl, refl, sym (append-nil c.deleted), refl, ok)

Evicted-more :
    (n : ℕ) (c c' : LruCache) (old : LruHandle) (rest : List LruHandle) (order : c.lru ≡ old ∷ rest)
    (ok : IsEvictable c)
    → Evicted n (taken c old rest order ok) c'
    → Evicted (suc n) c c'
unfolding taken
Evicted-more n c c' old rest order ok (lru, used, deleted, cap, ok') = (
  lru ∙ sym (ap (drop (suc n)) order),
  used,
  deleted
      ∙ append_assoc c.deleted (old ∷ []) (take n rest)
      ∙ ap (λ (l : List LruHandle). c.deleted ++ l) (sym (ap (take (suc n)) order)),
  cap,
  ok',
)

-- What the loop of `Insert` is to do.
abbrev Evicts : ℕ → LruCache → Type 0
Evicts fuel c =
    (n : ℕ) × (c' : LruCache) × (evict_loop fuel c ≡ some c')
    × Evicted n c c'
    × ((c'.usage ≤ c'.capacity) ⊎ (c'.lru ≡ []))

evicts :
    (fuel : ℕ) (lru : List LruHandle) (c : LruCache)
    → c.lru ≡ lru
    → IsEvictable c
    → length lru < fuel
    → Evicts fuel c
unfolding evict_loop
evicts zero lru c order ok enough = absurd (omega arith)
evicts (suc fuel) [] c order ok enough = (0, c, ground arith, Evicted-none c ok, inr order)
evicts (suc fuel) (old ∷ rest) c order ok enough = elim (Bool-cases (ltb c.capacity c.usage)) [
  | inr within ↦
      (0, c, ground arith, Evicted-none c ok, inl (ltb_false→le c.capacity c.usage within))
  | inl over ↦
      let (n, c', ends, evicted, done) =
        evicts fuel rest (taken c old rest order ok) (taken_rest c old rest order ok)
          (taken-IsEvictable c old rest order ok) (omega arith) in
      (
        suc n,
        c',
        ground (arith, erase-taken c old rest order ok),
        Evicted-more n c c' old rest order ok evicted,
        done,
      )
]

-- The loop of Insert ends. It takes off the oldest handles that no client uses and calls their
-- deleters in this order; the usage is then the sum of the charges that are left, and within the
-- capacity unless every handle that is left is in use.
pub evict_loop_lem :
    (fuel : ℕ) (c : LruCache)
    → IsEvictable c
    → length c.lru < fuel
    → (n : ℕ) × (c' : LruCache) × (evict_loop fuel c ≡ some c')
      × Evicted n c c'
      × ((c'.usage ≤ c'.capacity) ⊎ (c'.lru ≡ []))
evict_loop_lem fuel c ok enough = evicts fuel c.lru c refl ok enough

prunes :
    (fuel : ℕ) (lru : List LruHandle) (c : LruCache)
    → c.lru ≡ lru
    → IsEvictable c
    → length lru < fuel
    → (c' : LruCache) × (prune_loop fuel c ≡ some c') × Evicted (length lru) c c'
unfolding prune_loop
prunes zero lru c order ok enough = absurd (omega arith)
prunes (suc fuel) [] c order ok enough = (c, ground arith, Evicted-none c ok)
prunes (suc fuel) (old ∷ rest) c order ok enough =
    let (c', ends, evicted) =
      prunes fuel rest (taken c old rest order ok) (taken_rest c old rest order ok)
        (taken-IsEvictable c old rest order ok) (omega arith) in
    (
      c',
      ground (arith, erase-taken c old rest order ok),
      Evicted-more (length rest) c c' old rest order ok evicted,
    )

take_all : (handles : List LruHandle) → take (length handles) handles ≡ handles
take_all [] = refl
take_all (e ∷ handles) = ap (◌∷◌ e) (take_all handles)

drop_all : (handles : List LruHandle) → drop (length handles) handles ≡ []
drop_all [] = refl
drop_all (e ∷ handles) = drop_all handles

-- Prune ends. It calls the deleters of all handles that no client uses, the oldest first; the handles
-- in use stay, and the usage is the sum of their charges.
pub prune-Evicted :
    (c : LruCache)
    → IsEvictable c
    → (c' : LruCache) × (prune c ≡ some c')
      × (c'.lru ≡ [])
      × (c'.in_use ≡ c.in_use)
      × (c'.deleted ≡ c.deleted ++ c.lru)
      × (c'.usage ≡ total c.in_use)
unfolding prune
prune-Evicted c ok =
    let (c', ends, (lru, used, deleted, cap, ok')) =
      prunes (suc (length c.lru)) c.lru c refl ok (omega arith) in
    let none_left : c'.lru ≡ [] = lru ∙ drop_all c.lru in
    (
      c',
      ends,
      none_left,
      used,
      deleted ∙ ap (λ (l : List LruHandle). c.deleted ++ l) (take_all c.lru),
      omega (arith, ok'.charged, ap total none_left, ap total used),
    )
