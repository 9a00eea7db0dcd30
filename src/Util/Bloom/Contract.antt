-- ===== src/Util/Bloom/Contract.antt =====
-- The Bloom filter policy keeps the contract of a filter policy, and a table's filter block built with it has
-- no false negative.
use rally_db.Prelude.{
  ℕ, zero, suc, ◌+◌, ◌*◌, ◌^◌, ◌<◌, List, [], ◌∷◌, ◌≡◌, ◌∙◌, refl, true, arith, length,
  length-append, get_or, take, ◌%◌, replicate,
}
use rally_db.Util.Coding.{Bytes}
use rally_db.Util.Bloom.{
  add_probes, add_keys, rotate, bloom_hash, set_bit, bloom_filter, filter_bytes, probes_number,
  bloom_policy,
}
use rally_db.Util.Bloom.Bits.{length-set_bit}
use rally_db.Util.Bloom.Match.{bloom_may_match-bloom_filter}
use rally_db.Table.FilterBlock.Builder.{new_builder, return_filters, finish}
use rally_db.Table.FilterBlock.Reader.{FilterBlockReader, new_reader, key_may_match}
use rally_db.Table.FilterBlock.Groups.{IsFilterPolicy}
use rally_db.Table.FilterBlock.Run.{run_blocks, IsRising, InBlock, keys_number}
use rally_db.Table.FilterBlock.Served.{key_may_match-run_blocks}
use native.Mathlib.Nat.{mul-le-mul_right}

length-add_probes :
    (k bits delta h : ℕ) (a : Bytes) → length (add_probes k bits delta h a) ≡ length a
unfolding add_probes
length-add_probes zero bits delta h a = refl
length-add_probes (suc k) bits delta h a =
    length-add_probes k bits delta ((h + delta) % 2 ^ 32) (set_bit a (h % bits))
    ∙ length-set_bit a (h % bits)

length-add_keys :
    (k bits index : ℕ) (keys : List Bytes) (a : Bytes)
    → length (add_keys k bits index keys a) ≡ length a
unfolding add_keys
length-add_keys k bits index [] a = refl
length-add_keys k bits index (key ∷ keys) a =
    let h = bloom_hash key index in
    length-add_keys k bits index keys (add_probes k bits (rotate h) h a)
    ∙ length-add_probes k bits (rotate h) h a

-- The size of a filter does not depend on the number of its unit.
length-bloom_filter :
    (bits_per_key i j : ℕ) (keys : List Bytes)
    → length (bloom_filter bits_per_key i keys) ≡ length (bloom_filter bits_per_key j keys)
unfolding bloom_filter
length-bloom_filter bits_per_key i j keys =
    let k = probes_number bits_per_key in
    let bytes = filter_bytes bits_per_key (length keys) in
    let of = λ (n : ℕ). add_keys k (bytes * 8) n keys (replicate bytes 0) in
    omega (
      arith,
      length-append (of i) (k ∷ []),
      length-append (of j) (k ∷ []),
      length-add_keys k (bytes * 8) i keys (replicate bytes 0),
      length-add_keys k (bytes * 8) j keys (replicate bytes 0),
    )

pub bloom_policy-IsFilterPolicy :
    (bits_per_key limit : ℕ)
    → limit * bits_per_key < 2 ^ 63
    → IsFilterPolicy (bloom_policy bits_per_key)
unfolding bloom_policy
bloom_policy-IsFilterPolicy bits_per_key limit small = record {
  filter = bloom_filter bits_per_key;
  limit = limit;
  appends = λ keys dst i. refl;
  same_size = λ i keys. length-bloom_filter bits_per_key i 0 keys;
  finds = λ i k keys few among.
      bloom_may_match-bloom_filter bits_per_key i k keys
        (omega (arith, small, mul-le-mul_right bits_per_key few)) among;
}

-- No false negative: a table's keys are given to a `FilterBlockBuilder` with Bloom filters, block by block, with offsets
-- that do not fall; a unit stays below 2^32 bytes, and the keys' bits below 2^63. `FilterBlockReader` opens what `Finish`
-- writes and loads any number of the units. Then `KeyMayMatch` lets every key of a block pass at the block's offset.
pub key_may_match-bloom_policy :
    (bits_per_key : ℕ) (blocks : List (ℕ × List Bytes)) (memory : FilterBlockReader)
    (place file loaded o : ℕ) (key : Bytes)
    → keys_number blocks * bits_per_key < 2 ^ 63
    → IsRising 0 blocks
    → InBlock o key blocks
    → length (
        get_or
          (return_filters
            (bloom_policy bits_per_key)
            (run_blocks (bloom_policy bits_per_key) new_builder blocks)).filter_units
          0
          [])
      < 2 ^ 32
    → place < 2 ^ 64
    → let policy = bloom_policy bits_per_key in
      let b = return_filters policy (run_blocks policy new_builder blocks) in
      let r = new_reader memory (finish b place (length (get_or b.filter_units 0 []))) file in
      key_may_match policy (record r { filter_units = take loaded b.filter_units }) o key ≡ true
unfolding bloom_policy-IsFilterPolicy
key_may_match-bloom_policy bits_per_key blocks memory place file loaded o key few rising within
      small in_file =
    key_may_match-run_blocks (bloom_policy bits_per_key)
      (bloom_policy-IsFilterPolicy bits_per_key (keys_number blocks) few) blocks memory place file
      loaded o key (omega arith) rising within small in_file
