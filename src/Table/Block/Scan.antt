-- ===== src/Table/Block/Scan.antt =====
-- `ParseNextKey` on an entry that `BlockBuilder::Add` wrote.
use rally_db.Prelude.{
  ℕ, zero, suc, ◌+◌, ◌-◌, ◌≤◌, ◌<◌, ◌≡◌, ◌∙◌, sym, ap, refl, [], ◌∷◌, ◌++◌, true, false, some,
  arith, leb, length, length-append, length-drop, length-take, drop, take, take_of_append,
  take-append-drop, append_assoc, le→ltb_false,
}
use rally_db.Util.Coding.{Bytes, IsU32}
use rally_db.Util.Comparator.{common_prefix}
use rally_db.Table.Block.Builder.{BlockBuilder, put_entry, shared_length, add}
use rally_db.Table.Block.Iter.{
  Iter, Header, decode_entry, next_entry_offset, advance_restart, parse_next_key,
}
use rally_db.Table.Block.Entry.{decode_entry-put_entry}

-- The key that `Add` shares a prefix with begins with that prefix.
common_prefix_lem :
    (a b : Bytes)
    → (take (common_prefix a b) a ≡ take (common_prefix a b) b)
      × (common_prefix a b ≤ length a)
      × (common_prefix a b ≤ length b)
unfolding common_prefix
common_prefix_lem [] b = (refl, omega arith, omega arith)
common_prefix_lem (x ∷ a) [] = (refl, omega arith, omega arith)
common_prefix_lem (x ∷ a) (y ∷ b) = ground (arith, common_prefix_lem a b)

shared_length_lem :
    (interval : ℕ) (b : BlockBuilder) (key : Bytes)
    → (take (shared_length interval b key) b.last_key ≡ take (shared_length interval b key) key)
      × (shared_length interval b key ≤ length b.last_key)
      × (shared_length interval b key ≤ length key)
unfolding shared_length
shared_length_lem interval b key = ground (arith, common_prefix_lem b.last_key key)

-- The assertion of `Add`: its last key is the key that was added, restored from the shared prefix.
pub last_key-add :
    (interval : ℕ) (b : BlockBuilder) (key val : Bytes) → (add interval b key val).last_key ≡ key
unfolding add
last_key-add interval b key val =
    rw (shared_length_lem interval b key).0 (take-append-drop (shared_length interval b key) key)

advance_restart_keeps :
    (fuel : ℕ) (it : Iter)
    → ((advance_restart fuel it).key ≡ it.key)
      × ((advance_restart fuel it).value_offset ≡ it.value_offset)
      × ((advance_restart fuel it).value_size ≡ it.value_size)
      × ((advance_restart fuel it).current ≡ it.current)
unfolding advance_restart
advance_restart_keeps zero it = (refl, refl, refl, refl)
advance_restart_keeps (suc fuel) it =
    ground (arith, advance_restart_keeps fuel (record it { restart_index = it.restart_index + 1 }))

-- A move to an entry that is decoded as `h`.
abbrev at_entry : Iter → Header → Iter
at_entry it h = record it {
  current = next_entry_offset it;
  key = take h.shared it.key ++ take h.non_shared h.tail;
  value_offset = it.restarts - length h.tail + h.non_shared;
  value_size = h.value_length;
}

parse_decoded :
    (it : Iter) (h : Header)
    → next_entry_offset it < it.restarts
    → decode_entry (drop (next_entry_offset it) (take it.restarts it.contents)) ≡ some h
    → h.shared ≤ length it.key
    → parse_next_key it ≡ (true, advance_restart it.restarts_number (at_entry it h))
unfolding parse_next_key
parse_decoded it h hn hd hs =
    rw
      (
        parse_next_key,
        lt→leb_false (next_entry_offset it) it.restarts hn,
        hd,
        le→ltb_false (length it.key) h.shared hs,
      )
      refl
  where
    lt→leb_false : (n m : ℕ) → n < m → leb m n ≡ false
    lt→leb_false n m h = ground arith

tail_fits :
    (shared : ℕ) (key val rest : Bytes)
    → length (drop shared key ++ (val ++ rest)) ≤ length (put_entry [] shared key val ++ rest)
unfolding put_entry
tail_fits shared key val rest =
    rw (append_assoc, append_assoc)
      (omega (arith, length-append _ (drop shared key ++ (val ++ rest))))

-- An iterator that has the builder's last key, before the entry that `Add` wrote for the next one,
-- moves to that entry: it has the added key, and a value of the added one's size that ends where the
-- rest of the entries begins. The key, the value and the rest are together shorter than 2^32.
pub parse_next_key-add :
    (interval : ℕ) (b : BlockBuilder) (it : Iter) (key val rest : Bytes)
    → it.key ≡ b.last_key
    → drop (next_entry_offset it) (take it.restarts it.contents)
      ≡ put_entry [] (shared_length interval b key) key val ++ rest
    → next_entry_offset it < it.restarts
    → IsU32 (length key + length val + length rest)
    → let moved = parse_next_key it in
      (moved.0 ≡ true)
      × (moved.1.key ≡ key)
      × (moved.1.value_size ≡ length val)
      × (moved.1.current ≡ next_entry_offset it)
      × (moved.1.value_offset + length val + length rest ≡ it.restarts)
parse_next_key-add interval b it key val rest hk hb hn h =
    let n = shared_length interval b key in
    let (prefix, in_last, in_key) = shared_length_lem interval b key in
    let hd : decode_entry (drop (next_entry_offset it) (take it.restarts it.contents))
        ≡ some (entry n) =
      rw hb (decode_entry-put_entry n key val rest in_key h) in
    let (key', offset', size', current') =
      advance_restart_keeps it.restarts_number (at_entry it (entry n)) in
    let size : length (drop n key ++ (val ++ rest)) ≡ length key - n + length val + length rest =
      omega (
        arith,
        length-append (drop n key) (val ++ rest),
        length-append val rest,
        length-drop n key,
      ) in
    let below : length (drop n key ++ (val ++ rest)) ≤ it.restarts = omega (
      arith,
      tail_fits n key val rest,
      ap length hb,
      length-drop (next_entry_offset it) (take it.restarts it.contents),
      length-take it.restarts it.contents,
    ) in
    let restored : take n it.key ++ take (length key - n) (drop n key ++ (val ++ rest)) ≡ key =
      rw (hk, prefix, take_of_append (drop n key) (val ++ rest) (sym (length-drop n key)))
        (take-append-drop n key) in
    rw (parse_decoded it (entry n) hn hd (rw hk in_last))
      (refl, key' ∙ restored, size', current', rw offset' (omega (arith, size, below)))
  where
    entry : ℕ → Header
    entry n = record {
      shared = n;
      non_shared = length key - n;
      value_length = length val;
      tail = drop n key ++ (val ++ rest);
    }
