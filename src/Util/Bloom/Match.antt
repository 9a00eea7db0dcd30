-- ===== src/Util/Bloom/Match.antt =====
-- A key that a Bloom filter was made for matches it.
use rally_db.Prelude.{
  ℕ, zero, suc, ◌+◌, ◌-◌, ◌*◌, ◌/◌, ◌%◌, ◌^◌, ◌≤◌, ◌<◌, ◌≡◌, refl, List, [], ◌∷◌, ◌++◌, true, false,
  arith, length, length-append, get_or-append, last_of_append, All, inl, inr, replicate,
  length-replicate,
}
use rally_db.Prelude.Bytes.{Among}
use rally_db.Util.Coding.{Bytes, IsByte}
use rally_db.Util.Bloom.{
  set_bit, bit_is_clear, add_probes, probes_match, add_keys, bloom_hash, rotate, probes_number,
  filter_bytes, bloom_filter, bloom_may_match,
}
use rally_db.Util.Bloom.Bits.{
  bit_is_clear-set_bit_self, bit_is_clear-set_bit, length-set_bit, set_bit-All,
}
use native.Mathlib.Nat.{mod-lt}

-- An array of bytes with `bits` bits, `bits` being no less than 8.
abbrev IsArray : ℕ → Bytes → Type 0
IsArray bits a = All IsByte a × (bits ≡ length a * 8) × (0 < length a)

-- Bits of `a` are bits of `b`.
abbrev Keeps : Bytes → Bytes → Type 0
Keeps a b = (q : ℕ) → q / 8 < length a → bit_is_clear a q ≡ false → bit_is_clear b q ≡ false

probe_fits : (bits h : ℕ) (a : Bytes) → IsArray bits a → h % bits / 8 < length a
probe_fits bits h a ok = omega (arith, mod-lt h {m = bits} (omega arith))

set_bit-IsArray :
    (bits h : ℕ) (a : Bytes)
    → IsArray bits a
    → IsArray bits (set_bit a (h % bits)) × Keeps a (set_bit a (h % bits))
set_bit-IsArray bits h a ok =
    let size = length-set_bit a (h % bits) in
    (
      (set_bit-All a (h % bits) ok.0, omega (arith, size), omega (arith, size)),
      λ q lt e. bit_is_clear-set_bit a (h % bits) q ok.0 (probe_fits bits h a ok) e,
    )

add_probes-IsArray :
    (k bits delta h : ℕ) (a : Bytes)
    → IsArray bits a
    → IsArray bits (add_probes k bits delta h a) × Keeps a (add_probes k bits delta h a)
unfolding add_probes
add_probes-IsArray zero bits delta h a ok = (ok, λ q lt e. e)
add_probes-IsArray (suc k) bits delta h a ok =
    let (ok', keeps) = set_bit-IsArray bits h a ok in
    let next = add_probes-IsArray k bits delta ((h + delta) % 2 ^ 32) (set_bit a (h % bits)) ok' in
    (next.0, λ q lt e. next.1 q (omega arith) (keeps q lt e))

probes_match-add_probes :
    (k bits delta h : ℕ) (a : Bytes)
    → IsArray bits a
    → probes_match k bits delta h (add_probes k bits delta h a) ≡ true
unfolding add_probes probes_match
probes_match-add_probes zero bits delta h a ok = refl
probes_match-add_probes (suc k) bits delta h a ok =
    let (ok', keeps) = set_bit-IsArray bits h a ok in
    let a' : Bytes = set_bit a (h % bits) in
    let next : ℕ = (h + delta) % 2 ^ 32 in
    let fits = probe_fits bits h a ok in
    let here : bit_is_clear (add_probes k bits delta next a') (h % bits) ≡ false =
      (add_probes-IsArray k bits delta next a' ok').1 (h % bits)
        (omega (arith, length-set_bit a (h % bits)))
        (bit_is_clear-set_bit_self a (h % bits) ok.0 fits) in
    rw here (probes_match-add_probes k bits delta next a' ok')

probes_match-Keeps :
    (k bits delta h : ℕ) (a b : Bytes)
    → IsArray bits a
    → Keeps a b
    → probes_match k bits delta h a ≡ true
    → probes_match k bits delta h b ≡ true
unfolding probes_match
probes_match-Keeps zero bits delta h a b ok keeps e = refl
probes_match-Keeps (suc k) bits delta h a b ok keeps e = ground (
  arith,
  keeps (h % bits) (probe_fits bits h a ok),
  probes_match-Keeps k bits delta ((h + delta) % 2 ^ 32) a b ok keeps,
)

add_keys-IsArray :
    (k bits index : ℕ) (keys : List Bytes) (a : Bytes)
    → IsArray bits a
    → IsArray bits (add_keys k bits index keys a) × Keeps a (add_keys k bits index keys a)
unfolding add_keys
add_keys-IsArray k bits index [] a ok = (ok, λ q lt e. e)
add_keys-IsArray k bits index (key ∷ keys) a ok =
    let h : ℕ = bloom_hash key index in
    let (ok', keeps) = add_probes-IsArray k bits (rotate h) h a ok in
    let next = add_keys-IsArray k bits index keys (add_probes k bits (rotate h) h a) ok' in
    (next.0, λ q lt e. next.1 q (omega arith) (keeps q lt e))

-- Every key's probes find their bits.
keys_match :
    (k bits index : ℕ) (key : Bytes) (keys : List Bytes) (a : Bytes)
    → IsArray bits a
    → Among key keys
    → probes_match k bits
        (rotate (bloom_hash key index))
        (bloom_hash key index)
        (add_keys k bits index keys a)
      ≡ true
unfolding add_keys
keys_match k bits index key [] a ok m = absurd m
keys_match k bits index key (x ∷ keys) a ok (inl e) =
    let h : ℕ = bloom_hash x index in
    let a' : Bytes = add_probes k bits (rotate h) h a in
    let (ok', keeps) = add_probes-IsArray k bits (rotate h) h a ok in
    rw e (
      probes_match-Keeps k bits (rotate h) h a' _ ok' (add_keys-IsArray k bits index keys a' ok').1
        (probes_match-add_probes k bits (rotate h) h a ok))
keys_match k bits index key (x ∷ keys) a ok (inr m) =
    let h : ℕ = bloom_hash x index in
    keys_match k bits index key keys (add_probes k bits (rotate h) h a)
      (add_probes-IsArray k bits (rotate h) h a ok).0 m

filter_bytes_pos :
    (bits_per_key n : ℕ) → n * bits_per_key < 2 ^ 63 → 0 < filter_bytes bits_per_key n
unfolding filter_bytes
filter_bytes_pos bits_per_key n h = ground arith

probes_number_small : (bits_per_key : ℕ) → probes_number bits_per_key ≤ 30
unfolding probes_number
probes_number_small bits_per_key = ground arith

zeros-IsByte : (n : ℕ) → All IsByte (replicate n 0)
zeros-IsByte zero = tt
zeros-IsByte (suc n) = (omega arith, zeros-IsByte n)

-- The byte behind the array.
longer-Keeps : (a : Bytes) (k : ℕ) → Keeps a (a ++ (k ∷ []))
unfolding bit_is_clear
longer-Keeps a k q lt e = rw (get_or-append a (k ∷ []) (q / 8) 0 lt) e

array_match :
    (key : Bytes) (index k : ℕ) (a : Bytes)
    → k ≤ 30
    → IsArray (length a * 8) a
    → probes_match k (length a * 8) (rotate (bloom_hash key index)) (bloom_hash key index) a ≡ true
    → bloom_may_match key (a ++ (k ∷ [])) index ≡ true
unfolding bloom_may_match
array_match key index k a small ok e =
    let size : length (a ++ (k ∷ [])) ≡ length a + 1 = length-append a (k ∷ []) in
    let back : length a + 1 - 1 ≡ length a = omega arith in
    let longer =
      probes_match-Keeps k (length a * 8) (rotate (bloom_hash key index)) (bloom_hash key index) a
        (a ++ (k ∷ [])) ok (longer-Keeps a k) e in
    rw (size, back, last_of_append a k 0) (ground (arith, longer))

-- A Bloom filter has no false negative: every key that it was made for matches it, under the same
-- index of the unit, whatever the number of bits for a key.
pub bloom_may_match-bloom_filter :
    (bits_per_key index : ℕ) (key : Bytes) (keys : List Bytes)
    → length keys * bits_per_key < 2 ^ 63
    → Among key keys
    → bloom_may_match key (bloom_filter bits_per_key index keys) index ≡ true
unfolding bloom_filter
bloom_may_match-bloom_filter bits_per_key index key keys h m =
    let bytes : ℕ = filter_bytes bits_per_key (length keys) in
    let k : ℕ = probes_number bits_per_key in
    let zeros : Bytes = replicate bytes 0 in
    let ok : IsArray (bytes * 8) zeros = (
      zeros-IsByte bytes,
      omega (arith, length-replicate {0} {A = ℕ} bytes 0),
      omega (
        arith,
        length-replicate {0} {A = ℕ} bytes 0,
        filter_bytes_pos bits_per_key (length keys) h,
      ),
    ) in
    let full = add_keys-IsArray k (bytes * 8) index keys zeros ok in
    let found = keys_match k (bytes * 8) index key keys zeros ok m in
    array_match key index k (add_keys k (bytes * 8) index keys zeros)
      (probes_number_small bits_per_key) (full.0.0, refl, full.0.2) (rw (← full.0.1) found)
