-- ===== src/Util/Comparator/Order.antt =====
-- The order of `Slice::compare` is the lexicographic one, and it is a total order.
use rally_db.Prelude.{
  ℕ, [], ◌∷◌, ◌≡◌, refl, sym, ◌≢◌, ◌⊎◌, inl, inr, ◌↔◌, arith, ltb, if◌then◌else◌, length,
  Bool-cases,
}
use rally_db.Util.Coding.{Bytes}
use rally_db.Util.Comparator.{Sign, negative, null, positive, memcmp, compare}

-- Byte by byte; a proper prefix comes first.
unfoldable pub lex : Bytes → Bytes → Sign
lex [] [] = null
lex [] (y ∷ b) = negative
lex (x ∷ a) [] = positive
lex (x ∷ a) (y ∷ b) = if ltb x y then negative else if ltb y x then positive else lex a b

compare_cons :
    (x y : ℕ) (a b : Bytes)
    → compare (x ∷ a) (y ∷ b)
      ≡ (if ltb x y then negative else if ltb y x then positive else compare a b)
unfolding compare
compare_cons x y a b = elim (Bool-cases (ltb (length a) (length b))) [
  | inl e ↦ ground arith
  | inr e ↦ ground arith
]

pub compare-lex : (a b : Bytes) → compare a b ≡ lex a b
unfolding lex
compare-lex [] [] = unfold compare memcmp in refl
compare-lex [] (y ∷ b) = unfold compare in ground arith
compare-lex (x ∷ a) [] = unfold compare in ground arith
compare-lex (x ∷ a) (y ∷ b) = ground (arith, compare_cons x y a b, compare-lex a b)

pub lex_refl : (a : Bytes) → lex a a ≡ null
unfolding lex
lex_refl [] = refl
lex_refl (x ∷ a) = ground (arith, lex_refl a)

pub eq_of_lex : (a b : Bytes) → lex a b ≡ null → a ≡ b
unfolding lex
eq_of_lex [] [] h = refl
eq_of_lex [] (y ∷ b) h = cc
eq_of_lex (x ∷ a) [] h = cc
eq_of_lex (x ∷ a) (y ∷ b) h = ground (arith, eq_of_lex a b)

pub lex_flip : (a b : Bytes) → lex a b ≡ negative → lex b a ≡ positive
unfolding lex
lex_flip [] [] h = cc
lex_flip [] (y ∷ b) h = refl
lex_flip (x ∷ a) [] h = cc
lex_flip (x ∷ a) (y ∷ b) h = ground (arith, lex_flip a b)

pub lex_flip' : (a b : Bytes) → lex a b ≡ positive → lex b a ≡ negative
unfolding lex
lex_flip' [] [] h = cc
lex_flip' [] (y ∷ b) h = cc
lex_flip' (x ∷ a) [] h = refl
lex_flip' (x ∷ a) (y ∷ b) h = ground (arith, lex_flip' a b)

pub lex_trans : (a b c : Bytes) → lex a b ≡ negative → lex b c ≡ negative → lex a c ≡ negative
unfolding lex
lex_trans [] [] c p q = cc
lex_trans [] (y ∷ b) [] p q = cc
lex_trans [] (y ∷ b) (z ∷ c) p q = refl
lex_trans (x ∷ a) [] c p q = cc
lex_trans (x ∷ a) (y ∷ b) [] p q = cc
lex_trans (x ∷ a) (y ∷ b) (z ∷ c) p q = ground (arith, lex_trans a b c)

-- `Slice::compare` finds two byte strings equal only if they are, and finds one of two smaller where it
-- finds the other larger.
pub compare_antisymmetric :
    (a b : Bytes)
    → ((compare a b ≡ null) ↔ (a ≡ b)) × ((compare a b ≡ negative) ↔ (compare b a ≡ positive))
compare_antisymmetric a b =
    rw (compare-lex a b, compare-lex b a)
      ((eq_of_lex a b, λ e. rw e (lex_refl b)), (lex_flip a b, lex_flip' b a))

-- The order of `Slice::compare` is transitive.
pub compare_trans :
    (a b c : Bytes) → compare a b ≡ negative → compare b c ≡ negative → compare a c ≡ negative
compare_trans a b c = rw (compare-lex a b, compare-lex b c, compare-lex a c) (lex_trans a b c)

-- The three outcomes of a comparison, with the other way round.
pub sides :
    (a b : Bytes)
    → ((compare a b ≡ negative) × (compare b a ≡ positive))
      ⊎ ((compare a b ≡ null) × (compare b a ≡ null))
      ⊎ ((compare a b ≡ positive) × (compare b a ≡ negative))
sides a b = go (compare a b) refl
  where
    go :
        (s : Sign)
        → compare a b ≡ s
        → ((compare a b ≡ negative) × (compare b a ≡ positive))
          ⊎ ((compare a b ≡ null) × (compare b a ≡ null))
          ⊎ ((compare a b ≡ positive) × (compare b a ≡ negative))
    go negative e = inl (e, (compare_antisymmetric a b).1.0 e)
    go null e =
        let same : a ≡ b = (compare_antisymmetric a b).0.0 e in
        inr (inl (e, (compare_antisymmetric b a).0.1 (sym same)))
    go positive e = inr (inr (e, (compare_antisymmetric b a).1.1 e))

-- From not larger and smaller to smaller.
pub le_lt_trans :
    (a b c : Bytes) → compare a b ≢ positive → compare b c ≡ negative → compare a c ≡ negative
le_lt_trans a b c le lt = elim (sides a b) [
  | inl (s, t) ↦ compare_trans a b c s lt
  | inr (inl (s, t)) ↦ rw ((compare_antisymmetric a b).0.0 s) lt
  | inr (inr (s, t)) ↦ absurd (le s)
]

pub lt_le_trans :
    (a b c : Bytes) → compare a b ≡ negative → compare b c ≢ positive → compare a c ≡ negative
lt_le_trans a b c lt le = elim (sides b c) [
  | inl (s, t) ↦ compare_trans a b c lt s
  | inr (inl (s, t)) ↦ rw (← (compare_antisymmetric b c).0.0 s) lt
  | inr (inr (s, t)) ↦ absurd (le s)
]
