-- ===== src/Tests/Caches.antt =====
-- Runs of the LRU cache.
use rally_db.Prelude.{
  ℕ, ◌<◌, ◌≤◌, ◌^◌, [], ◌∷◌, ◌≡◌, refl, true, none, some, arith, ◌&&◌, ◌==◌, if◌then◌else◌, ◌⊎◌,
}
use rally_db.Prelude.Bytes.{same}
use rally_db.Util.Coding.{Bytes}
use rally_db.Util.Cache.Table.{
  LruHandle, HandleTable, matches, new_table, lookup, insert, remove, find, put_at, slot, grow,
  move_all, resize,
}
use rally_db.Util.Cache.Table.Lookup.{IsTable, new_table-IsTable, lookup-insert, lookup-remove}
use rally_db.Util.Cache.{LruCache, evict_loop, prune}
use rally_db.Util.Cache.Evict.{Evicted, IsEvictable, evict_loop_lem, prune-Evicted}

abbrev handle : ℕ → LruHandle
handle n = record { address = n; key = n ∷ []; hash = n; value = 0; charge = 10 }

new_table_small : new_table.elems < 2 ^ 31
unfolding new_table resize
new_table_small = omega arith

lookup-insert_example :
    ((insert (handle 5) new_table).0 ≡ lookup (5 ∷ []) 5 new_table)
    × IsTable (insert (handle 5) new_table).1
    × ((key : Bytes) (hash : ℕ)
        → lookup key hash (insert (handle 5) new_table).1
          ≡ (if matches key hash (handle 5) then some (handle 5) else lookup key hash new_table))
lookup-insert_example = lookup-insert new_table (handle 5) new_table-IsTable new_table_small

abbrev one_handle : HandleTable
one_handle = (insert (handle 5) new_table).1

one_handle_small : one_handle.elems < 2 ^ 31
unfolding new_table resize insert lookup find put_at slot grow move_all
one_handle_small = omega arith

-- Both handles are in the first bucket of four.
abbrev two_handles : HandleTable
two_handles = (insert (handle 9) one_handle).1

two_handles-IsTable : IsTable two_handles
two_handles-IsTable = (lookup-insert one_handle (handle 9) lookup-insert_table one_handle_small).1
  where
    lookup-insert_table : IsTable one_handle
    lookup-insert_table = (lookup-insert new_table (handle 5) new_table-IsTable new_table_small).1

lookup-remove_example :
    ((remove (9 ∷ []) 9 two_handles).0 ≡ lookup (9 ∷ []) 9 two_handles)
    × IsTable (remove (9 ∷ []) 9 two_handles).1
    × ((key' : Bytes) (hash' : ℕ)
        → lookup key' hash' (remove (9 ∷ []) 9 two_handles).1
          ≡ (if 9 == hash' && same key' (9 ∷ []) then none else lookup key' hash' two_handles))
lookup-remove_example = lookup-remove two_handles (9 ∷ []) 9 two_handles-IsTable

-- Two handles that no client uses, and room for one.
abbrev full_cache : LruCache
full_cache = record {
  capacity = 15;
  usage = 20;
  lru = handle 5 ∷ handle 9 ∷ [];
  in_use = [];
  table = two_handles;
  refs = λ a. 1;
  in_cache = λ a. true;
  deleted = [];
}

full_cache-IsEvictable : IsEvictable full_cache
unfolding new_table resize insert lookup find put_at slot grow move_all same
full_cache-IsEvictable = record {
  table = two_handles-IsTable;
  held = (refl, (refl, tt));
  apart = ((refl, tt), (tt, tt));
  unused = (tt, (tt, tt));
  single = (refl, (refl, tt));
  charged = refl;
  fits = omega arith;
}

evict_loop_lem_example :
    (n : ℕ) × (c' : LruCache) × (evict_loop 3 full_cache ≡ some c')
    × Evicted n full_cache c'
    × ((c'.usage ≤ c'.capacity) ⊎ (c'.lru ≡ []))
evict_loop_lem_example = evict_loop_lem 3 full_cache full_cache-IsEvictable (omega arith)

prune-Evicted_example :
    (c' : LruCache) × (prune full_cache ≡ some c')
    × (c'.lru ≡ [])
    × (c'.in_use ≡ [])
    × (c'.deleted ≡ handle 5 ∷ handle 9 ∷ [])
    × (c'.usage ≡ 0)
prune-Evicted_example = prune-Evicted full_cache full_cache-IsEvictable
