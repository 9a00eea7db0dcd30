-- ===== src/Util/Comparator.antt =====
-- util/comparator.cc and `Slice::compare` of include/leveldb/slice.h: the bytewise order of keys.
-- A comparison's int is modelled by its sign: the callers only test it against 0.
pub mod Order
pub mod Shorten
use rally_db.Prelude.{
  ℕ, zero, suc, ◌+◌, ◌<◌, List, [], ◌∷◌, ◌++◌, Bool, true, false, ◌&&◌, not, Option, none, some,
  ltb, leb, ◌==◌, if◌then◌else◌, length, get_or, set, take, ◌≡◌, refl,
}
use rally_db.Util.Coding.{Bytes}

pub data Sign : Type 0 where
  negative null positive : Sign

-- `< 0` and `> 0`.
abbrev pub is_negative : Sign → Bool
is_negative negative = true
is_negative _ = false

abbrev pub is_positive : Sign → Bool
is_positive positive = true
is_positive _ = false

pub positive_is : (s : Sign) → is_positive s ≡ true → s ≡ positive
positive_is negative e = cc
positive_is null e = cc
positive_is positive e = refl

pub negative_is : (s : Sign) → is_negative s ≡ true → s ≡ negative
negative_is negative e = refl
negative_is null e = cc
negative_is positive e = cc

-- `memcmp`: the first differing byte decides, as an unsigned number.
unfoldable pub memcmp : ℕ → Bytes → Bytes → Sign
memcmp zero a b = null
memcmp (suc n) [] b = null
memcmp (suc n) (x ∷ a) [] = null
memcmp (suc n) (x ∷ a) (y ∷ b) =
    if ltb x y then negative else if ltb y x then positive else memcmp n a b

-- `Slice::compare`
unfoldable pub compare : Bytes → Bytes → Sign
unfolding memcmp
compare a b =
    let min_len = if ltb (length a) (length b) then length a else length b in
    elim (memcmp min_len a b) [
      | null ↦
          if ltb (length a) (length b)
          then negative
          else if ltb (length b) (length a)
          then positive
          else null
      | r ↦ r
    ]

-- The interface `Comparator` of include/leveldb/comparator.h, as the callers see it.
pub record Comparator : Type 0 where
  pub cmp : Bytes → Bytes → Sign
  pub shortest_separator : Bytes → Bytes → Bytes
  pub short_successor : Bytes → Bytes

-- The loop that finds the length of the common prefix.
unfoldable pub common_prefix : Bytes → Bytes → ℕ
common_prefix [] b = 0
common_prefix (x ∷ a) [] = 0
common_prefix (x ∷ a) (y ∷ b) = if x == y then suc (common_prefix a b) else 0

-- `FindShortestSeparator`: the new value of `*start`.
unfoldable pub find_shortest_separator : Bytes → Bytes → Bytes
find_shortest_separator start limit =
    let min_length = if ltb (length limit) (length start) then length limit else length start in
    let diff_index = common_prefix start limit in
    let diff_byte = get_or start diff_index 0 in
    if leb min_length diff_index
    then start
    else if ltb diff_byte 255 && ltb (diff_byte + 1) (get_or limit diff_index 0)
    then take (suc diff_index) (set start diff_index (diff_byte + 1))
    else start

-- `FindShortSuccessor`: the loop stops at the first byte that can be incremented. The front that it
-- has passed stays; a run of 0xff is left alone.
unfoldable pub find_short_successor : Bytes → Bytes
find_short_successor [] = []
find_short_successor (x ∷ key) = if x == 255 then x ∷ find_short_successor key else (x + 1) ∷ []

abbrev pub bytewise_comparator : Comparator
bytewise_comparator = record {
  cmp = compare;
  shortest_separator = find_shortest_separator;
  short_successor = find_short_successor;
}
