-- ===== src/Db/DbIter/View.antt =====
-- What a snapshot shows of internal entries that are sorted newest first: a walk of its own, which the
-- proofs about `DBIter` meet.
use rally_db.Prelude.{
  ℕ, ◌≤◌, List, [], ◌∷◌, ◌≡◌, refl, Bool, true, false, not, Option, none, some, leb, if◌then◌else◌,
}
use rally_db.Util.Coding.{Bytes}
use rally_db.Util.Comparator.{Comparator, is_positive}
use rally_db.Db.Format.{ValueType, deletion, value, ParsedInternalKey, max_sequence_number}
use rally_db.Db.Format.Order.{packed}
use rally_db.Table.Iterator.{Entry}

-- An internal entry, parsed.
abbrev pub Versioned : Type 0
Versioned = ParsedInternalKey × Bytes

-- As it stands in the internal iterator.
abbrev pub stored : Versioned → Entry
stored e = (packed e.0, e.1)

abbrev pub Fits : Versioned → Type 0
Fits e = e.0.sequence ≤ max_sequence_number

abbrev pub skip_of : Bool → Bytes → Option Bytes
skip_of false key = none
skip_of true key = some key

module _ (user : Comparator) (snapshot : ℕ) where
  abbrev pub hides : Option Bytes → Bytes → Bool
  hides none key = false
  hides (some skip) key = not (is_positive (user.cmp key skip))

  -- What is shown of the entries when keys up to `skip` are hidden.
  unfoldable pub view : Option Bytes → List Versioned → List Entry
  view skip [] = []
  view skip ((k, v) ∷ es) =
      let later = view skip es in
      let rest = view (some k.user_key) es in
      if leb k.sequence snapshot
      then (elim k.type [
        | deletion ↦ rest
        | value ↦ if hides skip k.user_key then later else (k.user_key, v) ∷ rest
      ])
      else later

  -- What holds of the view however the first entry is judged.
  pub view_both :
      (P : List Entry → Type 0) (skip : Option Bytes) (k : ParsedInternalKey) (v : Bytes)
      (es : List Versioned)
      → P (view skip es)
      → P (view (some k.user_key) es)
      → (hides skip k.user_key ≡ false → P ((k.user_key, v) ∷ view (some k.user_key) es))
      → P (view skip ((k, v) ∷ es))
  unfolding view
  view_both P skip k v es later rest shown =
      go (leb k.sequence snapshot) k.type (hides skip k.user_key) shown
    where
      go :
          (b : Bool) (t : ValueType) (h : Bool)
          → (h ≡ false → P ((k.user_key, v) ∷ view (some k.user_key) es))
          → P (
              if b
              then (elim t [
                | deletion ↦ view (some k.user_key) es
                | value ↦ if h then view skip es else (k.user_key, v) ∷ view (some k.user_key) es
              ])
              else view skip es)
      go false t h f = later
      go true deletion h f = rest
      go true value true f = later
      go true value false f = f refl
