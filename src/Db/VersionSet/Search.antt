-- ===== src/Db/VersionSet/Search.antt =====
-- `FindFile` of db/version_set.cc against a search from the first file on.
use rally_db.Prelude.{
  ℕ, zero, suc, ◌+◌, ◌/◌, ◌%◌, ◌^◌, ◌≤◌, ◌<◌, ◌≡◌, ◌∙◌, refl, List, [], ◌∷◌, Bool, true, false, ◌⊎◌,
  inl, inr, arith, ltb, if◌then◌else◌, length, get_or, All, Bool-cases,
}
use rally_db.Util.Coding.{Bytes}
use rally_db.Util.Comparator.{Comparator}
use rally_db.Db.VersionEdit.{FileMetaData}
use rally_db.Db.VersionSet.{no_file, ends_before, find_loop, find_file}
use native.Mathlib.Nat.{mod-eq_of_lt}

module _ (below : FileMetaData → Bool) where
  -- How many files at the front are below.
  unfoldable pub first_not : List FileMetaData → ℕ
  first_not [] = 0
  first_not (f ∷ files) = let rest = first_not files in if below f then suc rest else 0

  -- No file that is not below is in front of one that is.
  unfoldable pub IsSplit : List FileMetaData → Type 0
  IsSplit [] = Unit {0}
  IsSplit (f ∷ files) = ((below f ≡ true) ⊎ All (λ g. below g ≡ false) files) × IsSplit files

  abbrev at : List FileMetaData → ℕ → Bool
  at files i = below (get_or files i no_file)

  none_below :
      (files : List FileMetaData) (i : ℕ)
      → All (λ g. below g ≡ false) files
      → i < length files
      → at files i ≡ false
  none_below [] i h lt = absurd (omega arith)
  none_below (f ∷ files) zero h lt = h.0
  none_below (f ∷ files) (suc i) h lt = none_below files i h.1 (omega arith)

  below_earlier :
      (files : List FileMetaData) (i j : ℕ)
      → IsSplit files
      → i ≤ j
      → j < length files
      → at files j ≡ true
      → at files i ≡ true
  unfolding IsSplit
  below_earlier [] i j s le lt e = absurd (omega arith)
  below_earlier (f ∷ files) zero zero s le lt e = e
  below_earlier (f ∷ files) (suc i) zero s le lt e = absurd (omega arith)
  below_earlier (f ∷ files) (suc i) (suc j) (h, s) le lt e =
      below_earlier files i j s (omega arith) (omega arith) e
  below_earlier (f ∷ files) zero (suc j) (inl b, s) le lt e = b
  below_earlier (f ∷ files) zero (suc j) (inr none, s) le lt e =
      let wrong = none_below files j none (omega arith) in absurd (ground arith)

  above_later :
      (files : List FileMetaData) (i j : ℕ)
      → IsSplit files
      → i ≤ j
      → j < length files
      → at files i ≡ false
      → at files j ≡ false
  above_later files i j s le lt e = elim (Bool-cases (at files j)) [
    | inl yes_below ↦ let wrong = below_earlier files i j s le lt yes_below in absurd (ground arith)
    | inr no_below ↦ no_below
  ]

  -- The two sides of an index settle it.
  first_not_unique :
      (files : List FileMetaData) (r : ℕ)
      → r ≤ length files
      → ((i : ℕ) → i < r → at files i ≡ true)
      → ((i : ℕ) → r ≤ i → i < length files → at files i ≡ false)
      → r ≡ first_not files
  unfolding first_not
  first_not_unique [] zero le lo hi = refl
  first_not_unique [] (suc r) le lo hi = absurd (omega arith)
  first_not_unique (f ∷ files) zero le lo hi =
      let here = hi 0 (omega arith) (omega arith) in ground arith
  first_not_unique (f ∷ files) (suc r) le lo hi =
      let here = lo 0 (omega arith) in
      let rest =
        first_not_unique files r (omega arith) (λ i lt. lo (suc i) (omega arith))
          (λ i le' lt. hi (suc i) (omega arith) (omega arith)) in
      ground arith

-- Two tests that agree on the files.
pub first_not-same :
    (p q : FileMetaData → Bool) (files : List FileMetaData)
    → All (λ f. p f ≡ q f) files
    → first_not p files ≡ first_not q files
unfolding first_not
first_not-same p q [] h = refl
first_not-same p q (f ∷ files) (e, h) = rw (e, first_not-same p q files h) refl

pub same-IsSplit :
    (p q : FileMetaData → Bool) (files : List FileMetaData)
    → All (λ f. p f ≡ q f) files
    → IsSplit q files
    → IsSplit p files
unfolding IsSplit
same-IsSplit p q [] h s = tt
same-IsSplit p q (f ∷ files) (e, h) (inl b, s) = (inl (e ∙ b), same-IsSplit p q files h s)
same-IsSplit p q (f ∷ files) (e, h) (inr none, s) =
    (inr (carry files h none), same-IsSplit p q files h s)
  where
    carry :
        (gs : List FileMetaData)
        → All (λ g. p g ≡ q g) gs
        → All (λ g. q g ≡ false) gs
        → All (λ g. p g ≡ false) gs
    carry [] a b = tt
    carry (g ∷ gs) (x, a) (y, b) = (x ∙ y, carry gs a b)

module _ (user : Comparator) (key : Bytes) where
  abbrev below : FileMetaData → Bool
  below f = ends_before user key f

  find_loop-first_not :
      (fuel left right : ℕ) (files : List FileMetaData)
      → IsSplit below files
      → length files < 2 ^ 31
      → left ≤ right
      → right ≤ length files
      → right ≤ left + fuel
      → ((i : ℕ) → i < left → below (get_or files i no_file) ≡ true)
      → ((i : ℕ) → right ≤ i → i < length files → below (get_or files i no_file) ≡ false)
      → find_loop user fuel left right files key ≡ first_not below files
  unfolding find_loop
  find_loop-first_not zero left right files split small le fits enough lo hi =
      first_not_unique below files right fits (λ i lt. lo i (omega arith)) hi
  find_loop-first_not (suc fuel) left right files split small le fits enough lo hi =
      let sum : (left + right) % 2 ^ 32 ≡ left + right = mod-eq_of_lt (omega arith) in
      let mid : ℕ = (left + right) / 2 in
      elim (Bool-cases (ltb left right)) [
        | inr done ↦
            rw (find_loop, done)
              (first_not_unique below files right fits (λ i lt. lo i (ground arith)) hi)
        | inl more ↦
            let wide : left < right = ground arith in
            elim (Bool-cases (below (get_or files mid no_file))) [
              | inl smaller ↦
                  rw (find_loop, more, sum, smaller, sum)
                    (find_loop-first_not fuel (mid + 1) right files split small (omega arith) fits
                      (omega arith)
                      (λ i lt.
                        below_earlier below files i mid split (omega arith) (omega arith) smaller)
                      hi)
              | inr larger ↦
                  rw (find_loop, more, sum, larger, sum)
                    (find_loop-first_not fuel left mid files split small (omega arith) (omega arith)
                      (omega arith) lo
                      (λ i le' lt. above_later below files mid i split le' lt larger))
            ]
      ]

  -- `FindFile` finds the first file that does not end before the key, as a search from the first file on does, when no file
  -- that ends behind the key is in front of one that ends before it.
  pub find_file-first_not :
      (files : List FileMetaData)
      → IsSplit (ends_before user key) files
      → length files < 2 ^ 31
      → find_file user files key ≡ first_not (ends_before user key) files
  unfolding find_file
  find_file-first_not files split small =
      let size : length files % 2 ^ 32 ≡ length files = mod-eq_of_lt (omega arith) in
      rw size (
        find_loop-first_not (length files) 0 (length files) files split small (omega arith)
          (omega arith) (omega arith) (λ i lt. absurd (omega arith))
          (λ i le lt. absurd (omega arith)))
