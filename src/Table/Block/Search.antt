-- ===== src/Table/Block/Search.antt =====
-- The binary search of `Block::Iter::Seek`.
use rally_db.Prelude.{
  ℕ, zero, suc, ◌+◌, ◌-◌, ◌/◌, ◌≤◌, ◌<◌, ◌≡◌, refl, ◌⊎◌, inl, inr, Bool, true, false, none, some,
  arith, Bool-cases, Option-cases, lt→ltb, le→ltb_false, sym, ◌∙◌, subst, ◌≢◌,
}
use native.Mathlib.Decide.{dec_lt}
use rally_db.Util.Coding.{Bytes}
use rally_db.Table.Block.Iter.{Iter}
use rally_db.Table.Block.Seek.{found_at, broken, restart_key, binary_search}
use rally_db.Util.Comparator.{is_negative}

found_at_inj : (p q : ℕ) → found_at p ≡ found_at q → p ≡ q
found_at_inj p q e = cc

found-ne-broken : (p : ℕ) → found_at p ≢ broken
found-ne-broken p e = cc

module _ (it : Iter) (target : Bytes) where
  -- The key of restart point `p` is smaller than the target, or it is not.
  abbrev pub KeyIsSmaller : ℕ → Bool → Type 0
  KeyIsSmaller p b =
      (k : Bytes) × (restart_key it p ≡ some k) × (is_negative (it.comparator.cmp k target) ≡ b)

  -- What the search promises of the point that it gives.
  abbrev pub IsLast : (left right p : ℕ) → Type 0
  IsLast left right p =
      (left ≤ p)
      × (p ≤ right)
      × ((p ≡ left) ⊎ KeyIsSmaller p true)
      × ((p ≡ right) ⊎ KeyIsSmaller (p + 1) false)

  -- What a round does, by the case.
  abbrev middle : (left right : ℕ) → ℕ
  middle left right = (left + right + 1) / 2

  round_meets :
      (fuel left right : ℕ)
      → right ≤ left
      → binary_search (suc fuel) it target left right ≡ found_at left
  unfolding binary_search
  round_meets fuel left right h = rw (binary_search, le→ltb_false left right h) refl

  round_breaks :
      (fuel left right : ℕ)
      → left < right
      → restart_key it (middle left right) ≡ none
      → binary_search (suc fuel) it target left right ≡ broken
  unfolding binary_search
  round_breaks fuel left right h e = rw (binary_search, lt→ltb left right h, e) refl

  round_right :
      (fuel left right : ℕ)
      → left < right
      → KeyIsSmaller (middle left right) true
      → binary_search (suc fuel) it target left right
        ≡ binary_search fuel it target (middle left right) right
  unfolding binary_search
  round_right fuel left right h (k, e, small) =
      rw (binary_search, lt→ltb left right h, e, small) refl

  round_left :
      (fuel left right : ℕ)
      → left < right
      → KeyIsSmaller (middle left right) false
      → binary_search (suc fuel) it target left right
        ≡ binary_search fuel it target left (middle left right - 1)
  unfolding binary_search
  round_left fuel left right h (k, e, small) =
      rw (binary_search, lt→ltb left right h, e, small) refl

  go_right :
      (left right p mid : ℕ)
      → left < mid
      → KeyIsSmaller mid true
      → IsLast mid right p
      → IsLast left right p
  go_right left right p mid h small (low, high, inl same, up) =
      (omega arith, high, inr (subst (λ x. KeyIsSmaller x true) (sym same) small), up)
  go_right left right p mid h small (low, high, inr key, up) = (omega arith, high, inr key, up)

  go_left :
      (left right p mid : ℕ)
      → (left < mid) × (mid ≤ right)
      → KeyIsSmaller mid false
      → IsLast left (mid - 1) p
      → IsLast left right p
  go_left left right p mid h large (low, high, down, inl same) =
      (low, omega arith, down, inr (subst (λ x. KeyIsSmaller x false) (omega arith) large))
  go_left left right p mid h large (low, high, down, inr key) = (low, omega arith, down, inr key)

  search_round :
      (fuel left right p : ℕ)
      → left ≤ right
      → right - left ≤ fuel
      → binary_search fuel it target left right ≡ found_at p
      → IsLast left right p
  unfolding binary_search
  search_round zero left right p h hf e =
      let same : p ≡ left = cc in (omega arith, omega arith, inl same, inl (omega arith))
  search_round (suc fuel) left right p h hf e =
      let mid = middle left right in
      elim (dec_lt left right) [
        | no stop ↦
            (let same : p ≡ left =
                found_at_inj _ _ (sym e ∙ round_meets fuel left right (omega arith)) in
              (omega arith, omega arith, inl same, inl (omega arith)))
        | yes lt ↦ elim (Option-cases (restart_key it mid)) [
          | inl miss ↦ absurd (found-ne-broken p (sym e ∙ round_breaks fuel left right lt miss))
          | inr (k, hit) ↦ elim (Bool-cases (is_negative (it.comparator.cmp k target))) [
            | inl small ↦
                (let rest =
                    search_round fuel mid right p (omega arith) (omega arith)
                      (sym (round_right fuel left right lt (k, hit, small)) ∙ e) in
                  go_right left right p mid (omega arith) (k, hit, small) rest)
            | inr large ↦
                (let rest =
                    search_round fuel left (mid - 1) p (omega arith) (omega arith)
                      (sym (round_left fuel left right lt (k, hit, large)) ∙ e) in
                  go_left left right p mid (omega arith) (k, hit, large) rest)
          ]
        ]
      ]

  -- Where `Seek` finds a restart point in a range, the point is in the range, its key is smaller than the
  -- target unless it is the first of the range, and the key of the next one is not smaller unless it is
  -- the last of the range.
  pub binary_search-IsLast :
      (left right p : ℕ)
      → left ≤ right
      → binary_search (right - left) it target left right ≡ found_at p
      → IsLast left right p
  binary_search-IsLast left right p h e = search_round (right - left) left right p h (omega arith) e
