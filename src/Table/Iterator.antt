-- ===== src/Table/Iterator.antt =====
-- include/leveldb/iterator.h: the interface `Iterator`, as the iterators over it call it, and what the
-- comments there promise of it.
pub mod Cursor
use rally_db.Prelude.{
  ℕ, zero, suc, ◌<◌, ◌≤◌, length, Option, none, some, ◌>>=◌, arith, List, [], ◌∷◌, ◌≡◌, Bool, true,
  false, if◌then◌else◌,
}
use rally_db.Util.Status.{Status}
use rally_db.Util.Coding.{Bytes}
use rally_db.Util.Comparator.{Sign, is_negative}

-- The methods of an iterator with states in `S`.
pub record Iterator (S : Type 0) : Type 0 where
  pub valid : S → Bool
  pub key : S → Bytes
  pub value : S → Bytes
  pub status : S → Status
  pub seek_to_first : S → S
  pub seek_to_last : S → S
  pub seek : Bytes → S → S
  pub next : S → S
  pub prev : S → S

-- A key with its value.
abbrev pub Entry : Type 0
Entry = Bytes × Bytes

-- The entries from the first one on whose key is not below the target.
unfoldable pub entries_from : (Bytes → Bytes → Sign) → Bytes → List Entry → List Entry
entries_from order target [] = []
entries_from order target (e ∷ es) =
    let rest = entries_from order target es in
    if is_negative (order e.0 target) then rest else e ∷ es

-- What a walk forwards relies on. `Over s all`: the source of `s` has the entries `all`.
-- `At s all es`: besides, `s` stands at the first of `es`, which are the entries from there on.
pub record IsForward {S : Type 0} (it : Iterator S) (order : Bytes → Bytes → Sign)
    (Over : S → List Entry → Type 0) (At : S → List Entry → List Entry → Type 0) : Type 0 where
  pub at_end : (s : S) (all : List Entry) → At s all [] → it.valid s ≡ false
  pub at_entry :
      (s : S) (all : List Entry) (e : Entry) (es : List Entry)
      → At s all (e ∷ es)
      → (it.valid s ≡ true) × (it.key s ≡ e.0) × (it.value s ≡ e.1) × At (it.next s) all es
  pub at_first : (s : S) (all : List Entry) → Over s all → At (it.seek_to_first s) all all
  pub at_target :
      (s : S) (all : List Entry) (target : Bytes)
      → Over s all
      → At (it.seek target s) all (entries_from order target all)
  pub still_over : (s : S) (all es : List Entry) → At s all es → Over s all

pub length-entries_from :
    (order : Bytes → Bytes → Sign) (target : Bytes) (es : List Entry)
    → length (entries_from order target es) ≤ length es
unfolding entries_from
length-entries_from order target [] = omega arith
length-entries_from order target (e ∷ es) = ground (arith, length-entries_from order target es)

module _ {S : Type 0} (it : Iterator S) where
  -- The loop of a client: `for (...; iter->Valid(); iter->Next())`, which collects the entries.
  unfoldable pub walk : ℕ → S → Option (List Entry)
  walk zero s = none
  walk (suc fuel) s = elim (it.valid s) [
    | false ↦ some []
    | true ↦ walk fuel (it.next s) >>= λ es. some ((it.key s, it.value s) ∷ es)
  ]

  module _ (order : Bytes → Bytes → Sign) (Over : S → List Entry → Type 0)
      (At : S → List Entry → List Entry → Type 0) (law : IsForward it order Over At)
      (all : List Entry) where
    pub walk-entries :
        (fuel : ℕ) (es : List Entry) (s : S)
        → length es < fuel
        → At s all es
        → walk fuel s ≡ some es
    unfolding walk
    walk-entries zero es s enough here = absurd (omega arith)
    walk-entries (suc fuel) [] s enough here = ground (arith, law.at_end s all here)
    walk-entries (suc fuel) (e ∷ es) s enough here =
        let (valid, key, val, behind) = law.at_entry s all e es here in
        ground (arith, walk-entries fuel es (it.next s) (omega arith) behind)
