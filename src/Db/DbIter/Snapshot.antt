-- ===== src/Db/DbIter/Snapshot.antt =====
-- What a snapshot of the database holds, told without any walk: for each user key the entry with the
-- largest sequence number that the snapshot sees. The view of sorted entries is that.
use rally_db.Prelude.{
  ℕ, ◌≤◌, List, [], ◌∷◌, ◌≡◌, refl, sym, subst, ◌∙◌, ◌⊎◌, inl, inr, ◌&&◌, Option, none, some, arith,
  ltb, leb, if◌then◌else◌, All, Bool-cases, Option-cases,
}
use rally_db.Prelude.Bytes.{same, eq_of_same}
use rally_db.Util.Coding.{Bytes}
use rally_db.Util.Comparator.{negative, compare, bytewise_comparator}
use rally_db.Util.Comparator.Order.{compare_antisymmetric, sides}
use rally_db.Db.Format.{deletion, value}
use rally_db.Db.Format.Order.{packed, order, internal_compare_lem}
use rally_db.Table.Iterator.{Entry}
use rally_db.Db.DbIter.View.{Versioned, Fits}

-- Rising internal keys.
abbrev pub IsSorted : List Versioned → Type 0
IsSorted [] = Unit {0}
IsSorted (e ∷ es) = All (λ f. order (packed e.0) (packed f.0) ≡ negative) es × IsSorted es

-- Rising user keys.
abbrev pub IsAscending : List Entry → Type 0
IsAscending [] = Unit {0}
IsAscending (e ∷ es) = All (λ f. compare e.0 f.0 ≡ negative) es × IsAscending es

-- The value that is shown for a key.
unfoldable pub find : Bytes → List Entry → Option Bytes
find u [] = none
find u ((k, v) ∷ out) = let rest = find u out in if same k u then some v else rest

abbrev pub newer : Versioned → Option Versioned → Versioned
newer e none = e
newer e (some f) = if ltb e.0.sequence f.0.sequence then f else e

-- The entry of a key with the largest sequence number up to the snapshot's.
unfoldable pub newest : ℕ → Bytes → List Versioned → Option Versioned
newest snapshot u [] = none
newest snapshot u (e ∷ es) =
    let rest = newest snapshot u es in
    if leb e.0.sequence snapshot && same e.0.user_key u then some (newer e rest) else rest

abbrev pub live : Option Versioned → Option Bytes
live none = none
live (some (k, v)) = elim k.type [ deletion ↦ none | value ↦ some v ]

-- `f` comes behind `e`.
abbrev pub Behind : Versioned → Versioned → Type 0
Behind e f =
    (compare e.0.user_key f.0.user_key ≡ negative)
    ⊎ ((e.0.user_key ≡ f.0.user_key) × (f.0.sequence ≤ e.0.sequence))

pub Behind_lem :
    (e f : Versioned) → Fits e → Fits f → order (packed e.0) (packed f.0) ≡ negative → Behind e f
Behind_lem e f he hf h = elim (sides e.0.user_key f.0.user_key) [
  | inl (s, t) ↦ inl s
  | inr (inl (s, t)) ↦ inr (
    (compare_antisymmetric e.0.user_key f.0.user_key).0.0 s,
    ground (arith, internal_compare_lem bytewise_comparator e.0 f.0 he hf),
  )
  | inr (inr (s, t)) ↦
      absurd (ground (arith, internal_compare_lem bytewise_comparator e.0 f.0 he hf))
]

-- Behind every entry of a sorted list come the others.
pub All-Behind :
    (e : Versioned) (es : List Versioned)
    → All Fits (e ∷ es)
    → All (λ f. order (packed e.0) (packed f.0) ≡ negative) es
    → All (Behind e) es
All-Behind e [] fits h = tt
All-Behind e (f ∷ es) (he, (hf, rest)) (h, more) =
    (Behind_lem e f he hf h, All-Behind e es (he, rest) more)

module _ (snapshot : ℕ) where
  -- A key below all of the entries has none.
  pub newest-none :
      (u : Bytes) (es : List Versioned)
      → All (λ f. compare u f.0.user_key ≡ negative) es
      → newest snapshot u es ≡ none
  unfolding newest
  newest-none u [] h = refl
  newest-none u ((k, v) ∷ es) (h, more) = elim (Bool-cases (same k.user_key u)) [
    | inl e ↦
        let k_is : k.user_key ≡ u = eq_of_same k.user_key u e in
        absurd (cc (h, (compare_antisymmetric u k.user_key).0.1 (sym k_is)))
    | inr e ↦ ground (arith, newest-none u es more)
  ]

  -- The newest entry of a key is one of the entries.
  newest-All :
      (P : Versioned → Type 0) (u : Bytes) (es : List Versioned) (f : Versioned)
      → All P es
      → newest snapshot u es ≡ some f
      → P f × (f.0.user_key ≡ u)
  unfolding newest
  newest-All P u [] f h e = absurd (ground arith)
  newest-All P u (g ∷ es) f (h, more) e =
      elim (Bool-cases (leb g.0.sequence snapshot && same g.0.user_key u)) [
        | inr other ↦ newest-All P u es f more (ground arith)
        | inl mine ↦ elim (Option-cases (newest snapshot u es)) [
          | inl last ↦
              let is : g ≡ f = ground arith in
              subst (λ (x : Versioned). P x × (x.0.user_key ≡ u)) is
                (h, eq_of_same g.0.user_key u (ground arith))
          | inr (k, found) ↦ elim (Bool-cases (ltb g.0.sequence k.0.sequence)) [
            | inl less ↦
                let is : k ≡ f = ground arith in
                subst (λ (x : Versioned). P x × (x.0.user_key ≡ u)) is
                  (newest-All P u es k more found)
            | inr more_recent ↦
                let is : g ≡ f = ground arith in
                subst (λ (x : Versioned). P x × (x.0.user_key ≡ u)) is
                  (h, eq_of_same g.0.user_key u (ground arith))
          ]
        ]
      ]

  -- In sorted entries the newest one is the first.
  pub newest_first :
      (u : Bytes) (e : Versioned) (es : List Versioned)
      → All (Behind e) es
      → newest snapshot u (e ∷ es) ≡ (
          if leb e.0.sequence snapshot && same e.0.user_key u then some e else newest snapshot u es)
  unfolding newest
  newest_first u e es behind =
      elim (Bool-cases (leb e.0.sequence snapshot && same e.0.user_key u)) [
        | inr other ↦ ground arith
        | inl mine ↦ elim (Option-cases (newest snapshot u es)) [
          | inl last ↦ ground arith
          | inr (k, found) ↦
              let (order, key) = newest-All (Behind e) u es k behind found in
              let here : e.0.user_key ≡ u = eq_of_same e.0.user_key u (ground arith) in
              elim order [
                | inl below ↦ absurd (
                    cc (
                      below,
                      (compare_antisymmetric e.0.user_key k.0.user_key).0.1 (here ∙ sym key),
                    ))
                | inr (_, older) ↦ ground arith
              ]
        ]
      ]
