-- ===== src/Tests/Iterators.antt =====
-- Runs of the iterators over a database.
use rally_db.Prelude.{
  ℕ, ◌+◌, ◌<◌, List, [], ◌∷◌, ◌≡◌, refl, none, some, arith, if◌then◌else◌, map, ◌>>=◌, length, All,
}
use mathlib.Core.List.{Perm, flatten}
use rally_db.Util.Coding.{Bytes, decode_fixed64, put_fixed64, encode_fixed64}
use rally_db.Util.Comparator.{bytewise_comparator, compare, memcmp, is_negative}
use rally_db.Db.Format.{
  ValueType, deletion, value, internal_compare, extract_user_key, extract_tag, append_internal_key,
  parse_internal_key, pack_sequence_and_type,
}
use rally_db.Db.Format.Order.{packed, order}
use rally_db.Db.Format.Total.{order-IsOrder}
use rally_db.Table.Iterator.{Entry, Iterator, walk, entries_from}
use rally_db.Table.Iterator.Cursor.{Cursor, cursor_iterator, Over, At, cursor-IsForward}
use rally_db.Table.Merger.{
  MergingIterator, new_merging_iterator, merging_iterator, merging_seek, merging_seek_to_first,
}
use rally_db.Table.Merger.Merge.{merge_all, IsRising, merge}
use rally_db.Table.Merger.Walk.{walk-merging_iterator}
use rally_db.Db.DbIter.{
  DbIter, new_db_iter, seek, seek_to_first, find_next_user_entry, show_next, advance, inspect_next,
  parse_key, next, leave_current, current_key, current_value,
}
use rally_db.Db.DbIter.Forward.{collect}
use rally_db.Db.DbIter.View.{Versioned, stored}
use rally_db.Db.DbIter.Snapshot.{IsSorted, IsAscending, find, newest, live}
use rally_db.Db.DbIter.Walk.{collect-seek_to_first, collect-seek}

abbrev versioned : ℕ → ℕ → ValueType → Versioned
versioned key seq t = (record { user_key = key ∷ []; sequence = seq; type = t }, seq ∷ [])

-- Two versions of `a`, a deleted `b`, and a `c` that is written after the snapshot.
abbrev versions : List Versioned
versions =
    versioned b'a' 5 value
    ∷ versioned b'a' 3 value
    ∷ versioned b'b' 4 deletion
    ∷ versioned b'b' 2 value
    ∷ versioned b'c' 6 value
    ∷ []

abbrev over_versions : DbIter Cursor ℕ
over_versions = new_db_iter (record { entries = map stored versions; position = none }) 0

abbrev sum_sizes : Bytes → ℕ → ℕ → ℕ
sum_sizes key bytes n = n + bytes

abbrev versions_iterator : Iterator Cursor
versions_iterator = cursor_iterator order

versions-IsSorted : IsSorted versions
unfolding internal_compare extract_user_key extract_tag decode_fixed64 append_internal_key
    put_fixed64 encode_fixed64 pack_sequence_and_type compare memcmp
versions-IsSorted = (
  (refl, (refl, (refl, (refl, tt)))),
  ((refl, (refl, (refl, tt))), ((refl, (refl, tt)), ((refl, tt), (tt, tt)))),
)

collect-seek_to_first_example :
    (out : List Entry) × ((seek_to_first versions_iterator bytewise_comparator sum_sizes 5 9
          over_versions
        >>= collect versions_iterator bytewise_comparator sum_sizes 5 9 9)
      ≡ some out)
    × IsAscending out
    × ((u : Bytes) → find u out ≡ live (newest 5 u versions))
collect-seek_to_first_example =
    collect-seek_to_first versions_iterator sum_sizes 5 Over At (cursor-IsForward order) versions 9
      over_versions refl (omega arith) versions-IsSorted (omega arith)

collect-seek_example :
    (out : List Entry) × ((seek versions_iterator bytewise_comparator sum_sizes 5 9
          (b'b' ∷ [])
          over_versions
        >>= collect versions_iterator bytewise_comparator sum_sizes 5 9 9)
      ≡ some out)
    × IsAscending out
    × ((u : Bytes)
        → find u out
          ≡ (if is_negative (compare u (b'b' ∷ [])) then none else live (newest 5 u versions)))
collect-seek_example =
    collect-seek versions_iterator sum_sizes 5 Over At (cursor-IsForward order) versions 9
      over_versions (b'b' ∷ []) (omega arith) refl (omega arith) versions-IsSorted (omega arith)

-- A memtable's and a table's entries.
abbrev newer_entries : List Entry
newer_entries = map stored (versioned b'a' 5 value ∷ versioned b'b' 4 deletion ∷ [])

abbrev older_entries : List Entry
older_entries = map stored (versioned b'a' 3 value ∷ versioned b'b' 2 value ∷ [])

abbrev two_lists : List (List Entry)
two_lists = newer_entries ∷ older_entries ∷ []

abbrev over_lists : MergingIterator Cursor
over_lists = new_merging_iterator (
    record { entries = newer_entries; position = none }
    ∷ record { entries = older_entries; position = none }
    ∷ [])

two_lists-IsRising : All (IsRising order) two_lists
unfolding internal_compare extract_user_key extract_tag decode_fixed64 append_internal_key
    put_fixed64 encode_fixed64 pack_sequence_and_type compare memcmp
two_lists-IsRising = (((refl, tt), (tt, tt)), (((refl, tt), (tt, tt)), tt))

two_lists_size : length (merge_all order two_lists) < 9
unfolding internal_compare extract_user_key extract_tag decode_fixed64 append_internal_key
    put_fixed64 encode_fixed64 pack_sequence_and_type compare memcmp merge_all merge
two_lists_size = omega arith

abbrev sought : Bytes
sought = packed (record { user_key = b'b' ∷ []; sequence = 9; type = value })

walk-merging_iterator_example :
    (walk
        (merging_iterator versions_iterator order)
        9
        (merging_seek_to_first versions_iterator order over_lists)
      ≡ some (merge_all order two_lists))
    × (walk
          (merging_iterator versions_iterator order)
          9
          (merging_seek versions_iterator order sought over_lists)
        ≡ some (entries_from order sought (merge_all order two_lists)))
    × Perm (merge_all order two_lists) (flatten two_lists)
    × IsRising order (merge_all order two_lists)
walk-merging_iterator_example =
    walk-merging_iterator versions_iterator order order-IsOrder Over At (cursor-IsForward order)
      over_lists two_lists sought 9 (refl, (refl, tt)) two_lists-IsRising two_lists_size

-- What the snapshot 5 shows: `b` is deleted and `c` is too new.
shown_versions :
    (seek_to_first versions_iterator bytewise_comparator sum_sizes 5 9 over_versions
      >>= collect versions_iterator bytewise_comparator sum_sizes 5 9 9)
    ≡ some ((b'a' ∷ [], 5 ∷ []) ∷ [])
unfolding seek_to_first collect find_next_user_entry show_next advance inspect_next parse_key next
    leave_current current_key current_value parse_internal_key internal_compare extract_user_key
    extract_tag decode_fixed64 append_internal_key put_fixed64 encode_fixed64 pack_sequence_and_type
    compare memcmp
shown_versions = refl
