-- ===== src/Util/Cache.antt =====
-- util/cache.cc: the LRU cache. A shard keeps the handles that clients use in one list and the others in
-- another, from the oldest to the newest; a list is what the links `next` make of it, without its head.
-- `refs` and `in_cache` are the fields of the handle at an address. A deleter's call is the last that
-- is seen of a handle: `deleted` has these calls in order. Each method is one step under the mutex.
pub mod Table
pub mod Evict
use rally_db.Prelude.{
  ℕ, zero, suc, ◌+◌, ◌-◌, ◌*◌, ◌/◌, ◌%◌, ◌^◌, List, [], ◌∷◌, ◌++◌, Bool, true, false, ◌&&◌, Option,
  none, some, ltb, ◌==◌, if◌then◌else◌, sub64, length, get_or, set, replicate, ◌>>=◌,
}
use rally_db.Util.Coding.{Bytes}
use rally_db.Util.Hash.{hash as hash_bytes}
use rally_db.Util.Cache.Table.{LruHandle, HandleTable, new_table, lookup, insert, remove}

pub record LruCache : Type 0 where
  pub capacity : ℕ
  pub usage : ℕ
  pub lru : List LruHandle
  pub in_use : List LruHandle
  pub table : HandleTable
  pub refs : ℕ → ℕ
  pub in_cache : ℕ → Bool
  pub deleted : List LruHandle

pub new_lru_cache : LruCache
new_lru_cache = record {
  capacity = 0;
  usage = 0;
  lru = [];
  in_use = [];
  table = new_table;
  refs = λ a. 0;
  in_cache = λ a. false;
  deleted = [];
}

-- The field of one handle is written.
abbrev pub assign {ℓ} : {A : Type ℓ} → (ℕ → A) → ℕ → A → ℕ → A
assign f a v b = if b == a then v else f b

unfoldable pub without : ℕ → List LruHandle → List LruHandle
without a [] = []
without a (x ∷ handles) =
    let rest = without a handles in if x.address == a then handles else x ∷ rest

-- `LRU_Remove`: the handle leaves the list that it is in.
unfoldable pub lru_remove : LruHandle → LruCache → LruCache
lru_remove e c = record c { lru = without e.address c.lru; in_use = without e.address c.in_use }

-- `LRU_Append`, to either list.
unfoldable pub append_lru : LruHandle → LruCache → LruCache
append_lru e c = record c { lru = c.lru ++ e ∷ [] }

unfoldable pub append_in_use : LruHandle → LruCache → LruCache
append_in_use e c = record c { in_use = c.in_use ++ e ∷ [] }

unfoldable pub ref : LruHandle → LruCache → LruCache
ref e c =
    let c' =
      if c.refs e.address == 1 && c.in_cache e.address
      then append_in_use e (lru_remove e c)
      else c in
    record c' { refs = assign c'.refs e.address ((c'.refs e.address + 1) % 2 ^ 32) }

-- REQUIRES: the handle is referenced.
unfoldable pub unref : LruHandle → LruCache → LruCache
unref e c =
    let left = c.refs e.address - 1 in
    let c' = record c { refs = assign c.refs e.address left } in
    if left == 0
    then record c' { deleted = c'.deleted ++ e ∷ [] }
    else if c'.in_cache e.address && left == 1
    then append_lru e (lru_remove e c')
    else c'

-- Whether there was a handle, and the cache without it.
unfoldable pub finish_erase : Option LruHandle → LruCache → Bool × LruCache
finish_erase none c = (false, c)
finish_erase (some e) c =
    let c' = lru_remove e c in
    (
      true,
      unref e (record c' {
        in_cache = assign c'.in_cache e.address false;
        usage = sub64 c'.usage e.charge;
      }),
    )

-- `FinishErase(table_.Remove(key, hash))`
unfoldable pub erase : Bytes → ℕ → LruCache → LruCache
erase key hash c =
    let removed = remove key hash c.table in
    (finish_erase removed.0 (record c { table = removed.1 })).1

-- The loop of `Insert`. Each round takes the oldest handle off; `none` means that the fuel ran out.
unfoldable pub evict_loop : ℕ → LruCache → Option LruCache
evict_loop zero c = none
evict_loop (suc fuel) c = elim c.lru [
  | [] ↦ some c
  | old ∷ rest ↦ elim (ltb c.capacity c.usage) [
    | true ↦ evict_loop fuel (erase old.key old.hash c)
    | false ↦ some c
  ]
]

-- `Insert`, at the address that `malloc` gave.
unfoldable pub insert_handle : LruHandle → LruCache → Option LruCache
insert_handle e c =
    let fresh = record c {
      refs = assign c.refs e.address 1;
      in_cache = assign c.in_cache e.address false;
    } in
    let stored =
      if ltb 0 c.capacity
      then (let c' = append_in_use e (record fresh {
        refs = assign fresh.refs e.address 2;
        in_cache = assign fresh.in_cache e.address true;
        usage = (fresh.usage + e.charge) % 2 ^ 64;
      }) in
          let inserted = insert e c'.table in
          (finish_erase inserted.0 (record c' { table = inserted.1 })).1)
      else fresh in
    evict_loop (suc (length stored.lru)) stored

-- `Lookup`
unfoldable pub lookup_handle : Bytes → ℕ → LruCache → Option LruHandle × LruCache
lookup_handle key hash c = elim (lookup key hash c.table) [
  | none ↦ (none, c)
  | some e ↦ (some e, ref e c)
]

unfoldable pub release : LruHandle → LruCache → LruCache
release e c = unref e c

unfoldable pub prune_loop : ℕ → LruCache → Option LruCache
prune_loop zero c = none
prune_loop (suc fuel) c = elim c.lru [
  | [] ↦ some c
  | e ∷ rest ↦ prune_loop fuel (erase e.key e.hash c)
]

unfoldable pub prune : LruCache → Option LruCache
unfolding prune_loop
prune c = prune_loop (suc (length c.lru)) c

abbrev pub total_charge : LruCache → ℕ
total_charge c = c.usage

-- The sharded cache: `kNumShardBits` bits of a key's hash choose the shard.
abbrev num_shard_bits : ℕ
num_shard_bits = 4

abbrev num_shards : ℕ
num_shards = 2 ^ num_shard_bits

abbrev shard_of : ℕ → ℕ
shard_of hash = hash / 2 ^ (32 - num_shard_bits)

hash_slice : Bytes → ℕ
hash_slice key = hash_bytes key 0

pub record ShardedLruCache : Type 0 where
  pub shard : List LruCache
  pub last_id : ℕ

sharded_lru_cache : ℕ → ShardedLruCache
unfolding new_lru_cache
sharded_lru_cache capacity = record {
  shard =
      replicate num_shards
        (record new_lru_cache { capacity = (capacity + (num_shards - 1)) / num_shards });
  last_id = 0;
}

abbrev shard_at : ShardedLruCache → ℕ → LruCache
shard_at s hash = get_or s.shard (shard_of hash) new_lru_cache

abbrev set_shard : ShardedLruCache → ℕ → LruCache → ShardedLruCache
set_shard s hash c = record s { shard = set s.shard (shard_of hash) c }

sharded_insert :
    (address : ℕ) → Bytes → (value charge : ℕ) → ShardedLruCache → Option ShardedLruCache
sharded_insert address key value charge s =
    let hash = hash_slice key in
    insert_handle
      (record { address = address; key = key; hash = hash; value = value; charge = charge })
      (shard_at s hash)
    >>= λ c. some (set_shard s hash c)

sharded_lookup : Bytes → ShardedLruCache → Option LruHandle × ShardedLruCache
sharded_lookup key s =
    let hash = hash_slice key in
    let found = lookup_handle key hash (shard_at s hash) in (found.0, set_shard s hash found.1)

sharded_release : LruHandle → ShardedLruCache → ShardedLruCache
sharded_release e s = set_shard s e.hash (release e (shard_at s e.hash))

sharded_erase : Bytes → ShardedLruCache → ShardedLruCache
sharded_erase key s =
    let hash = hash_slice key in set_shard s hash (erase key hash (shard_at s hash))

-- The new identifier.
new_id : ShardedLruCache → ℕ × ShardedLruCache
new_id s = let id = (s.last_id + 1) % 2 ^ 64 in (id, record s { last_id = id })

prune_all : List LruCache → Option (List LruCache)
prune_all [] = some []
prune_all (c ∷ shards) = prune c >>= λ c'. prune_all shards >>= λ rest. some (c' ∷ rest)

sharded_prune : ShardedLruCache → Option ShardedLruCache
unfolding prune_all
sharded_prune s = prune_all s.shard >>= λ shards. some (record s { shard = shards })

sum_charges : List LruCache → ℕ
sum_charges [] = 0
sum_charges (c ∷ shards) = total_charge c + sum_charges shards

sharded_total_charge : ShardedLruCache → ℕ
unfolding sum_charges
sharded_total_charge s = sum_charges s.shard % 2 ^ 64
