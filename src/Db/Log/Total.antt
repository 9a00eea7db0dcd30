-- ===== src/Db/Log/Total.antt =====
-- `AddRecord` comes to an end, and what it does to the offset in the block.
use rally_db.Prelude.{
  ℕ, zero, suc, ◌+◌, ◌-◌, ◌*◌, ◌≤◌, ◌<◌, ◌≡◌, refl, ◌⊎◌, inl, inr, Bool-cases, Bool, true, false,
  ◌&&◌, some, arith, ltb, ◌==◌, if◌then◌else◌, length, length-take, length-drop, take, drop,
}
use rally_db.Util.Status.{Status, is_ok}
use rally_db.Util.Coding.{Bytes}
use rally_db.Util.Crc.{Crc}
use rally_db.Db.Log.{block_size}
use rally_db.Db.Log.Writer.{
  WritableFile, Writer, emit_physical_record, switch_block, fragment_length, add_record_loop,
  add_record, fragment_type,
}

fragment_bounds :
    (block_offset left : ℕ)
    → block_offset ≤ 32761
    → (block_offset + 7 + fragment_length block_offset left ≤ 32768)
      × (fragment_length block_offset left ≤ left)
      × ((fragment_length block_offset left ≡ left)
          ⊎ (block_offset + 7 + fragment_length block_offset left ≡ 32768))
unfolding fragment_length
fragment_bounds block_offset left h = ground arith

module _ (crc : Crc) {F : Type 0} (file : WritableFile F) where
  offset-emit_physical_record :
      (w : Writer F) (t : ℕ) (payload : Bytes)
      → (emit_physical_record crc file w t payload).1.block_offset
        ≡ w.block_offset + 7 + length payload
  unfolding emit_physical_record
  offset-emit_physical_record w t payload = ground arith

  -- The offset that a fragment begins at leaves room for its header.
  offset-switch_block :
      (w : Writer F)
      → ((switch_block crc file w).block_offset
          ≡ (if ltb 32761 w.block_offset then 0 else w.block_offset))
  unfolding switch_block
  offset-switch_block w = ground arith

  switched_le :
      (w : Writer F) → w.block_offset ≤ 32768 → (switch_block crc file w).block_offset ≤ 32761
  switched_le w h = ground (arith, offset-switch_block w)

  -- The rounds that are enough: two for each byte, one for the last, and one more when the block has
  -- room for a header only.
  enough : Writer F → Bytes → ℕ
  enough w left = 2 * length left + 1 + (if w.block_offset == 32761 then 1 else 0)

  left_over : (b : Bool) (k : ℕ) → (b && ltb 0 k) ≡ true → 0 < k
  left_over b k e = ground arith

  spent :
      (o o' left n fuel : ℕ)
      → 0 < left - n
      → o' ≡ (if ltb 32761 o then 0 else o)
      → (o' + 7 + n ≤ 32768) × (n ≤ left) × ((n ≡ left) ⊎ (o' + 7 + n ≡ 32768))
      → 2 * left + 1 + (if o == 32761 then 1 else 0) ≤ suc fuel
      → (rest : Bytes) (w : Writer F) → length rest ≡ left - n
      → w.block_offset ≡ o' + 7 + n
      → enough w rest ≤ fuel
  unfolding enough
  spent o o' left n fuel h0 ho hb hf rest w hr hw = ground arith

  loop_total :
      (fuel : ℕ) (w : Writer F) (left : Bytes) (begin : Bool)
      → w.block_offset ≤ 32768
      → enough w left ≤ fuel
      → (s : Status) × (w' : Writer F) × (add_record_loop crc file fuel w left begin ≡ some (s, w'))
        × (w'.block_offset ≤ 32768)
  unfolding add_record_loop enough
  loop_total zero w left begin ho hf = absurd (omega arith)
  loop_total (suc fuel) w left begin ho hf =
      let w' = switch_block crc file w in
      let n = fragment_length w'.block_offset (length left) in
      let t = fragment_type begin (length left == n) in
      let emitted = emit_physical_record crc file w' t (take n left) in
      let more = is_ok emitted.0 && ltb 0 (length left - n) in
      let placed = offset-switch_block w in
      let shorter = length-drop n left in
      let part = length-take n left in
      let bounds =
        fragment_bounds w'.block_offset (length left) (omega (arith, switched_le w ho)) in
      let moved = offset-emit_physical_record w' t (take n left) in
      let inside : emitted.1.block_offset ≤ 32768 = omega (arith, moved, part, bounds) in
      elim (Bool-cases more) [
        | inl e ↦ rw e (
            loop_total fuel emitted.1 (drop n left) false inside (
              spent w.block_offset w'.block_offset (length left) n fuel (left_over _ _ e) placed
                bounds hf (drop n left) emitted.1 shorter (omega (arith, moved, part, bounds))))
        | inr e ↦ rw e (emitted.0, emitted.1, refl, inside)
      ]

  -- `AddRecord` returns, whatever the file answers, and leaves `block_offset_` within the block, when it
  -- was within it.
  pub add_record_total :
      (w : Writer F) (slice : Bytes)
      → w.block_offset ≤ block_size
      → (s : Status) × (w' : Writer F) × (add_record crc file w slice ≡ some (s, w'))
        × (w'.block_offset ≤ block_size)
  unfolding add_record enough
  add_record_total w slice h = loop_total (2 * length slice + 2) w slice true h (ground arith)
