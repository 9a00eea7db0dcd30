-- ===== src/Util/Comparator/Shorten.antt =====
-- The shortened keys of `FindShortestSeparator` and `FindShortSuccessor` stand where index blocks
-- need them.
use rally_db.Prelude.{
  ℕ, ◌+◌, ◌≤◌, [], ◌∷◌, ◌≡◌, refl, ◌≢◌, ◌⊎◌, inl, ◌&&◌, arith, ltb, ◌==◌, if◌then◌else◌, length,
  All,
}
use rally_db.Util.Coding.{Bytes, IsByte}
use rally_db.Util.Comparator.{
  negative, positive, compare, common_prefix, find_shortest_separator, find_short_successor,
}
use rally_db.Util.Comparator.Order.{lex, compare-lex, lex_refl}

separator_cons :
    (x y : ℕ) (a b : Bytes)
    → find_shortest_separator (x ∷ a) (y ∷ b) ≡ (
        if x == y
        then x ∷ find_shortest_separator a b
        else if ltb x 255 && ltb (x + 1) y
        then (x + 1) ∷ []
        else x ∷ a)
unfolding find_shortest_separator common_prefix
separator_cons x y a b = ground arith

separator_lex :
    (start limit : Bytes)
    → lex start limit ≡ negative
    → (lex start (find_shortest_separator start limit) ≢ positive)
      × (lex (find_shortest_separator start limit) limit ≡ negative)
      × (length (find_shortest_separator start limit) ≤ length start)
unfolding lex
separator_lex [] [] h = cc
separator_lex [] (y ∷ b) h = unfold find_shortest_separator common_prefix in ground arith
separator_lex (x ∷ a) [] h = cc
separator_lex (x ∷ a) (y ∷ b) h =
    ground (arith, separator_cons x y a b, separator_lex a b, lex_refl a)

-- If `start < limit`, the separator is at least `start`, below `limit`, and no longer than `start`.
pub separator_bounds :
    (start limit : Bytes)
    → compare start limit ≡ negative
    → (compare start (find_shortest_separator start limit) ≢ positive)
      × (compare (find_shortest_separator start limit) limit ≡ negative)
      × (length (find_shortest_separator start limit) ≤ length start)
separator_bounds start limit =
    rw
      (
        compare-lex start limit,
        compare-lex start (find_shortest_separator start limit),
        compare-lex (find_shortest_separator start limit) limit,
      )
      (separator_lex start limit)

successor_lex :
    (key : Bytes)
    → All IsByte key
    → ((find_short_successor key ≡ key) × All (λ b. b ≡ 255) key)
      ⊎ ((lex key (find_short_successor key) ≡ negative)
          × (length (find_short_successor key) ≤ length key))
unfolding lex find_short_successor
successor_lex [] h = inl (refl, tt)
successor_lex (x ∷ key) h = ground (arith, successor_lex key h.1)

-- A run of 0xff stays as it is; the successor of any other key is above it and no longer.
pub successor_bounds :
    (key : Bytes)
    → All IsByte key
    → ((find_short_successor key ≡ key) × All (λ b. b ≡ 255) key)
      ⊎ ((compare key (find_short_successor key) ≡ negative)
          × (length (find_short_successor key) ≤ length key))
successor_bounds key = rw (compare-lex key (find_short_successor key)) (successor_lex key)

-- Between two equal keys there is nothing to shorten.
pub separator_same : (a : Bytes) → find_shortest_separator a a ≡ a
separator_same [] = unfold find_shortest_separator common_prefix in refl
separator_same (x ∷ a) = ground (arith, separator_cons x x a a, separator_same a)
