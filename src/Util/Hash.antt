-- ===== src/Util/Hash.antt =====
-- util/hash.cc: the hash of keys, on 32-bit words.
use rally_db.Prelude.{ℕ, ◌+◌, ◌*◌, ◌/◌, ◌%◌, ◌^◌, bit_xor, [], ◌∷◌, length}
use rally_db.Util.Coding.{Bytes, decode_fixed32}

-- `h *= m; h ^= (h >> s)`, for the shifts 16 and 24.
unfoldable pub mix : (h s : ℕ) → ℕ
mix h s = let product = h * 0xc6a4a793 % 2 ^ 32 in bit_xor product (product / 2 ^ s)

-- The loop over four bytes at a time, and the switch over those that remain, which falls through.
unfoldable pub hash_loop : Bytes → ℕ → ℕ
hash_loop [] h = h
hash_loop (a ∷ []) h = mix ((h + a) % 2 ^ 32) 24
hash_loop (a ∷ b ∷ []) h = mix ((h + b * 2 ^ 8 + a) % 2 ^ 32) 24
hash_loop (a ∷ b ∷ c ∷ []) h = mix ((h + c * 2 ^ 16 + b * 2 ^ 8 + a) % 2 ^ 32) 24
hash_loop (a ∷ b ∷ c ∷ d ∷ rest) h =
    hash_loop rest (mix ((h + decode_fixed32 (a ∷ b ∷ c ∷ d ∷ [])) % 2 ^ 32) 16)

-- `Hash`; the product with the `size_t` is in 64 bits.
unfoldable pub hash : Bytes → (seed : ℕ) → ℕ
hash bytes seed = hash_loop bytes (bit_xor seed (length bytes * 0xc6a4a793 % 2 ^ 64) % 2 ^ 32)
