-- ===== src/Db/Format/Total.antt =====
-- The internal order is one that a merge can rely on, on any byte strings.
use rally_db.Prelude.{◌≤◌, ◌<◌, ◌≡◌, sym, subst, ◌∙◌, ◌⊎◌, inl, inr, true, false, arith}
use rally_db.Util.Coding.{Bytes}
use rally_db.Util.Comparator.{negative, compare, is_negative}
use rally_db.Util.Comparator.Order.{compare_antisymmetric, compare_trans, sides}
use rally_db.Db.Format.{internal_compare, extract_user_key, extract_tag}
use rally_db.Db.Format.Order.{order}
use rally_db.Table.Merger.Merge.{IsOrder}

abbrev user_of : Bytes → Bytes
user_of a = extract_user_key a

-- `a` comes before `b`, and it does not.
abbrev Less : Bytes → Bytes → Type 0
Less a b =
    (compare (user_of a) (user_of b) ≡ negative)
    ⊎ ((user_of a ≡ user_of b) × (extract_tag b < extract_tag a))

abbrev NotLess : Bytes → Bytes → Type 0
NotLess a b =
    (compare (user_of b) (user_of a) ≡ negative)
    ⊎ ((user_of a ≡ user_of b) × (extract_tag a ≤ extract_tag b))

Less-order : (a b : Bytes) → is_negative (order a b) ≡ true → Less a b
unfolding internal_compare
Less-order a b h = elim (sides (user_of a) (user_of b)) [
  | inl (p, q) ↦ inl p
  | inr (inl (p, q)) ↦ inr ((compare_antisymmetric (user_of a) (user_of b)).0.0 p, ground arith)
  | inr (inr (p, q)) ↦ absurd (ground arith)
]

order-Less : (a b : Bytes) → Less a b → is_negative (order a b) ≡ true
unfolding internal_compare
order-Less a b (inl p) = ground arith
order-Less a b (inr (same, tag)) =
    ground (arith, (compare_antisymmetric (user_of a) (user_of b)).0.1 same)

NotLess-order : (a b : Bytes) → is_negative (order a b) ≡ false → NotLess a b
unfolding internal_compare
NotLess-order a b h = elim (sides (user_of a) (user_of b)) [
  | inl (p, q) ↦ absurd (ground arith)
  | inr (inl (p, q)) ↦ inr ((compare_antisymmetric (user_of a) (user_of b)).0.0 p, ground arith)
  | inr (inr (p, q)) ↦ inl q
]

order-NotLess : (a b : Bytes) → NotLess a b → is_negative (order a b) ≡ false
unfolding internal_compare
order-NotLess a b (inl p) = ground (arith, (compare_antisymmetric (user_of b) (user_of a)).1.0 p)
order-NotLess a b (inr (same, tag)) =
    ground (arith, (compare_antisymmetric (user_of a) (user_of b)).0.1 same)

Less-trans : (a b c : Bytes) → Less a b → Less b c → Less a c
Less-trans a b c (inl p) (inl q) = inl (compare_trans (user_of a) (user_of b) (user_of c) p q)
Less-trans a b c (inl p) (inr (e, _)) =
    inl (subst (λ (x : Bytes). compare (user_of a) x ≡ negative) e p)
Less-trans a b c (inr (e, _)) (inl q) =
    inl (subst (λ (x : Bytes). compare x (user_of c) ≡ negative) (sym e) q)
Less-trans a b c (inr (e, t)) (inr (f, u)) = inr (e ∙ f, omega arith)

NotLess-trans : (a b c : Bytes) → NotLess a b → NotLess b c → NotLess a c
NotLess-trans a b c (inl p) (inl q) = inl (compare_trans (user_of c) (user_of b) (user_of a) q p)
NotLess-trans a b c (inl p) (inr (e, _)) =
    inl (subst (λ (x : Bytes). compare x (user_of a) ≡ negative) e p)
NotLess-trans a b c (inr (e, _)) (inl q) =
    inl (subst (λ (x : Bytes). compare (user_of c) x ≡ negative) (sym e) q)
NotLess-trans a b c (inr (e, t)) (inr (f, u)) = inr (e ∙ f, omega arith)

NotLess-Less : (a b : Bytes) → Less a b → NotLess b a
NotLess-Less a b (inl p) = inl p
NotLess-Less a b (inr (e, t)) = inr (sym e, omega arith)

pub order-IsOrder : IsOrder order
order-IsOrder = record {
  lt_trans = λ a b c p q. order-Less a c (Less-trans a b c (Less-order a b p) (Less-order b c q));
  above = λ a b p. order-NotLess b a (NotLess-Less a b (Less-order a b p));
  ge_trans = λ a b c p q.
      order-NotLess a c (NotLess-trans a b c (NotLess-order a b p) (NotLess-order b c q));
}
