-- ===== src/Util/Bloom.antt =====
-- util/bloom.cc: the filter policy, with one Bloom filter of the keys for each unit.
pub mod Bits
pub mod Match
pub mod Contract
use rally_db.Prelude.{
  ℕ, zero, suc, ◌+◌, ◌-◌, ◌*◌, ◌/◌, ◌%◌, ◌^◌, bit_and, bit_or, List, [], ◌∷◌, ◌++◌, Bool, true,
  false, ltb, ◌==◌, if◌then◌else◌, length, get_or, set, take, replicate,
}
use rally_db.Util.Coding.{Bytes}
use rally_db.Util.Hash.{hash}
use rally_db.Table.FilterBlock.{FilterPolicy}

-- `(h >> 17) | (h << 15)`
unfoldable pub rotate : ℕ → ℕ
rotate h = bit_or (h / 2 ^ 17) (h * 2 ^ 15 % 2 ^ 32)

-- `BloomHash`
unfoldable pub bloom_hash : Bytes → (index : ℕ) → ℕ
bloom_hash key index = let h = hash key 0xbc9f2d21 in (h + rotate h * index) % 2 ^ 32

-- `array[bitpos / 8] |= (1 << (bitpos % 8))`
unfoldable pub set_bit : Bytes → ℕ → Bytes
set_bit array bitpos =
    set array (bitpos / 8) (bit_or (get_or array (bitpos / 8) 0) (2 ^ (bitpos % 8)) % 256)

-- `(array[bitpos / 8] & (1 << (bitpos % 8))) == 0`
unfoldable pub bit_is_clear : Bytes → ℕ → Bool
bit_is_clear array bitpos = bit_and (get_or array (bitpos / 8) 0) (2 ^ (bitpos % 8)) == 0

-- The probes of one key, from the hash `h` on.
unfoldable pub add_probes : (k bits delta h : ℕ) → Bytes → Bytes
add_probes zero bits delta h array = array
add_probes (suc k) bits delta h array =
    add_probes k bits delta ((h + delta) % 2 ^ 32) (set_bit array (h % bits))

unfoldable pub probes_match : (k bits delta h : ℕ) → Bytes → Bool
probes_match zero bits delta h array = true
probes_match (suc k) bits delta h array =
    let rest = probes_match k bits delta ((h + delta) % 2 ^ 32) array in
    if bit_is_clear array (h % bits) then false else rest

-- The loop over the keys.
unfoldable pub add_keys : (k bits index : ℕ) → List Bytes → Bytes → Bytes
add_keys k bits index [] array = array
add_keys k bits index (key ∷ keys) array =
    let h = bloom_hash key index in
    add_keys k bits index keys (add_probes k bits (rotate h) h array)

-- The constructor's `k_`. `bits_per_key * 0.69` is rounded down; below the bound of 30 it is never near
-- a whole number.
unfoldable pub probes_number : (bits_per_key : ℕ) → ℕ
probes_number bits_per_key =
    let k = bits_per_key * 69 / 100 in if ltb k 1 then 1 else if ltb 30 k then 30 else k

-- The size of a filter in bytes, for `n` keys.
unfoldable pub filter_bytes : (bits_per_key n : ℕ) → ℕ
filter_bytes bits_per_key n =
    let bits = n * bits_per_key % 2 ^ 64 in ((if ltb bits 64 then 64 else bits) + 7) % 2 ^ 64 / 8

-- What `CreateFilter` appends.
unfoldable pub bloom_filter : (bits_per_key index : ℕ) → List Bytes → Bytes
bloom_filter bits_per_key index keys =
    let bytes = filter_bytes bits_per_key (length keys) in
    let k = probes_number bits_per_key in
    add_keys k (bytes * 8) index keys (replicate bytes 0) ++ (k ∷ [])

-- `KeyMayMatch`. A `k` above 30 is reserved, also one that a signed char makes negative.
unfoldable pub bloom_may_match : Bytes → Bytes → (index : ℕ) → Bool
bloom_may_match key filter index =
    let len = length filter in
    let h = bloom_hash key index in
    let k = get_or filter (len - 1) 0 in
    if ltb len 2
    then false
    else if ltb 30 k
    then true
    else probes_match k ((len - 1) * 8) (rotate h) h filter

-- `NewBloomFilterPolicy`
unfoldable pub bloom_policy : (bits_per_key : ℕ) → FilterPolicy
bloom_policy bits_per_key = record {
  create_filter = λ keys dst index. (dst ++ bloom_filter bits_per_key index keys, keys);
  key_may_match = bloom_may_match;
}
