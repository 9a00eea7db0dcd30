-- ===== src/Db/DbIter/Shown.antt =====
-- What `DBIter` shows is what the snapshot holds.
use rally_db.Prelude.{
  ℕ, List, [], ◌∷◌, ◌≡◌, ◌≢◌, sym, ap, subst, ◌∙◌, inl, inr, Bool, true, false, Option, none, some,
  arith, if◌then◌else◌, All, All-weaken, Bool-cases,
}
use rally_db.Prelude.Bytes.{same, eq_of_same, same_refl}
use rally_db.Util.Coding.{Bytes}
use rally_db.Util.Comparator.{negative, positive, compare, bytewise_comparator}
use rally_db.Util.Comparator.Order.{compare_antisymmetric, compare_trans, sides, le_lt_trans}
use rally_db.Db.Format.Order.{order}
use rally_db.Table.Iterator.{Entry}
use rally_db.Db.DbIter.View.{Versioned, Fits, hides, view, view_both}
use rally_db.Db.DbIter.Snapshot.{
  IsSorted, IsAscending, find, newest, live, Behind, All-Behind, newest-none, newest_first,
}

abbrev past : Option Bytes → Bytes → Bool
past none u = false
past (some s) u = same s u

abbrev pub Beyond : Option Bytes → Versioned → Type 0
Beyond none e = Unit {0}
Beyond (some s) e = compare e.0.user_key s ≢ negative

-- The entries behind one have user keys that are not below its.
Behind-Beyond : (e f : Versioned) → Behind e f → Beyond (some e.0.user_key) f
Behind-Beyond e f (inl below) h =
    cc (h, (compare_antisymmetric e.0.user_key f.0.user_key).1.0 below)
Behind-Beyond e f (inr (here, _)) h =
    cc (h, (compare_antisymmetric f.0.user_key e.0.user_key).0.1 (sym here))

module _ (snapshot : ℕ) (skip : Option Bytes) (u : Bytes) (e : Versioned) where
  -- The three ways in which what is hidden bears on a key.
  hidden_is :
      Beyond skip e
      → hides bytewise_comparator snapshot skip e.0.user_key ≡ true
      → past skip u ≡ same e.0.user_key u
  hidden_is = go skip
    where
      go :
          (o : Option Bytes)
          → Beyond o e
          → hides bytewise_comparator snapshot o e.0.user_key ≡ true
          → past o u ≡ same e.0.user_key u
      go none beyond h = absurd (ground arith)
      go (some s) beyond h = elim (sides e.0.user_key s) [
        | inl (p, q) ↦ absurd (beyond p)
        | inr (inl (p, q)) ↦
            ap (λ (x : Bytes). same x u) (sym ((compare_antisymmetric e.0.user_key s).0.0 p))
        | inr (inr (p, q)) ↦ absurd (ground arith)
      ]

  shown_is :
      hides bytewise_comparator snapshot skip e.0.user_key ≡ false
      → past skip u ≡ true
      → same e.0.user_key u ≡ false
  shown_is = go skip
    where
      go :
          (o : Option Bytes)
          → hides bytewise_comparator snapshot o e.0.user_key ≡ false
          → past o u ≡ true
          → same e.0.user_key u ≡ false
      go none h p = absurd (ground arith)
      go (some s) h p = elim (Bool-cases (same e.0.user_key u)) [
        | inr no_match ↦ no_match
        | inl yes_match ↦
            let here : e.0.user_key ≡ s =
              eq_of_same e.0.user_key u yes_match ∙ sym (eq_of_same s u p) in
            let level = (compare_antisymmetric e.0.user_key s).0.1 here in absurd (ground arith)
      ]

  missing :
      (es : List Versioned)
      → All (Behind e) es
      → Beyond skip e
      → past skip u ≡ true
      → same e.0.user_key u ≡ false
      → newest snapshot u es ≡ none
  missing es behind beyond p no_match = newest-none snapshot u es (
      All-weaken (Behind e) (λ f. compare u f.0.user_key ≡ negative) es
        (λ f b. go skip beyond p f b) behind)
    where
      go :
          (o : Option Bytes)
          → Beyond o e
          → past o u ≡ true
          → (f : Versioned) → Behind e f
          → compare u f.0.user_key ≡ negative
      go none b q f later = absurd (ground arith)
      go (some s) b q f later =
          let su : s ≡ u = eq_of_same s u q in
          let low : compare u e.0.user_key ≡ negative = elim (sides e.0.user_key u) [
            | inl (lt, gt) ↦ absurd (b (rw su lt))
            | inr (inl (same_key, _)) ↦
                let here : e.0.user_key ≡ u = (compare_antisymmetric e.0.user_key u).0.0 same_key in
                let yes_match : same e.0.user_key u ≡ true = rw here (same_refl u) in
                absurd (ground arith)
            | inr (inr (gt, lt)) ↦ lt
          ] in
          elim later [
            | inl below ↦ compare_trans u e.0.user_key f.0.user_key low below
            | inr (here, _) ↦ subst (λ (x : Bytes). compare u x ≡ negative) here low
          ]

module _ (snapshot : ℕ) where
  -- Looking a key up in what is shown is looking for its newest entry.
  pub find-view :
      (skip : Option Bytes) (u : Bytes) (es : List Versioned)
      → All Fits es
      → IsSorted es
      → All (Beyond skip) es
      → find u (view bytewise_comparator snapshot skip es)
        ≡ (if past skip u then none else live (newest snapshot u es))
  unfolding view find
  find-view skip u [] fits sorted beyond = unfold newest in ground arith
  find-view skip u ((k, v) ∷ es) fits (order, sorted) (here, beyond) =
      let behind = All-Behind (k, v) es fits order in
      let first = newest_first snapshot u (k, v) es behind in
      let past_it =
        All-weaken (Behind (k, v)) (Beyond (some k.user_key)) es (Behind-Beyond (k, v)) behind in
      let later = find-view skip u es fits.1 sorted beyond in
      let rest = find-view (some k.user_key) u es fits.1 sorted past_it in
      ground (
        arith,
        hidden_is snapshot skip u (k, v) here,
        shown_is snapshot skip u (k, v),
        missing snapshot skip u (k, v) es behind here,
      )

  below :
      (s u : Bytes) → hides bytewise_comparator snapshot (some s) u ≡ false → compare s u ≡ negative
  below s u h = elim (sides u s) [
    | inl (p, q) ↦ absurd (ground arith)
    | inr (inl (p, q)) ↦ absurd (ground arith)
    | inr (inr (p, q)) ↦ q
  ]

  -- What is shown comes in the order of the user keys.
  shown_above :
      (s : Bytes) (es : List Versioned)
      → All Fits es
      → IsSorted es
      → All (Beyond (some s)) es
      → All (λ f. compare s f.0 ≡ negative) (view bytewise_comparator snapshot (some s) es)
  shown_above s [] fits sorted beyond = unfold view in tt
  shown_above s ((k, v) ∷ es) fits (order, sorted) (here, beyond) =
      let behind = All-Behind (k, v) es fits order in
      let past_it =
        All-weaken (Behind (k, v)) (Beyond (some k.user_key)) es (Behind-Beyond (k, v)) behind in
      let later = shown_above s es fits.1 sorted beyond in
      let above = shown_above k.user_key es fits.1 sorted past_it in
      let le : compare s k.user_key ≢ positive =
        λ p. here ((compare_antisymmetric k.user_key s).1.1 p) in
      let rest =
        All-weaken (λ (f : Entry). compare k.user_key f.0 ≡ negative)
          (λ (f : Entry). compare s f.0 ≡ negative)
          (view bytewise_comparator snapshot (some k.user_key) es)
          (λ f lt. le_lt_trans s k.user_key f.0 le lt) above in
      view_both bytewise_comparator snapshot (All (λ f. compare s f.0 ≡ negative)) (some s) k v es
        later rest (λ open_. (below s k.user_key open_, rest))

  pub view-IsAscending :
      (skip : Option Bytes) (es : List Versioned)
      → All Fits es
      → IsSorted es
      → IsAscending (view bytewise_comparator snapshot skip es)
  view-IsAscending skip [] fits sorted = unfold view in tt
  view-IsAscending skip ((k, v) ∷ es) fits (order, sorted) =
      let behind = All-Behind (k, v) es fits order in
      let past_it =
        All-weaken (Behind (k, v)) (Beyond (some k.user_key)) es (Behind-Beyond (k, v)) behind in
      let above = shown_above k.user_key es fits.1 sorted past_it in
      let later = view-IsAscending skip es fits.1 sorted in
      let rest = view-IsAscending (some k.user_key) es fits.1 sorted in
      view_both bytewise_comparator snapshot IsAscending skip k v es later rest (λ _. (above, rest))
