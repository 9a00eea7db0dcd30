-- ===== src/Db/DbIter/Walk.antt =====
-- The walks of a client over a snapshot: `SeekToFirst` or `Seek`, and `Next` while `Valid`.
use rally_db.Prelude.{
  ℕ, ◌≤◌, ◌<◌, List, [], ◌∷◌, ◌≡◌, ◌≢◌, refl, subst, inl, inr, true, false, ◌&&◌, Option, none,
  some, arith, leb, if◌then◌else◌, All, All-weaken, Bool-cases, Bool-both, ◌>>=◌, length, map,
}
use rally_db.Prelude.Bytes.{same, eq_of_same}
use rally_db.Util.Coding.{Bytes}
use rally_db.Util.Comparator.{negative, is_negative, compare, bytewise_comparator, negative_is}
use rally_db.Util.Comparator.Order.{compare_antisymmetric, compare_trans, lt_le_trans}
use rally_db.Db.Format.{max_sequence_number, ParsedInternalKey, value_type_for_seek}
use rally_db.Db.Format.Order.{packed, order, internal_compare_lem, code-le}
use rally_db.Table.Iterator.{Iterator, Entry, IsForward, entries_from}
use rally_db.Db.DbIter.{DbIter, forward, seek_to_first, seek, show_next}
use rally_db.Db.DbIter.View.{Versioned, stored, Fits, view}
use rally_db.Db.DbIter.Snapshot.{
  IsSorted, IsAscending, find, newest, live, Behind, All-Behind, newest-none, newest_first,
}
use rally_db.Db.DbIter.Shown.{Beyond, find-view, view-IsAscending}
use rally_db.Db.DbIter.Forward.{show_next_lem, collect, collect_lem}

unhidden : (es : List Versioned) → All (Beyond none) es
unhidden [] = tt
unhidden (e ∷ es) = (tt, unhidden es)

module _ (snapshot : ℕ) where
  view_size :
      (skip : Option Bytes) (es : List Versioned)
      → length (view bytewise_comparator snapshot skip es) ≤ length es
  unfolding view
  view_size skip [] = omega arith
  view_size skip ((k, v) ∷ es) = ground (arith, view_size skip es, view_size (some k.user_key) es)

module _ (snapshot : ℕ) (target : Bytes) where
  abbrev sought : ParsedInternalKey
  sought = record { user_key = target; sequence = snapshot; type = value_type_for_seek }

  -- What the internal `Seek` leaves.
  dropped : List Versioned → List Versioned
  dropped [] = []
  dropped (e ∷ es) =
      let rest = dropped es in
      if is_negative (order (packed e.0) (packed sought)) then rest else e ∷ es

  dropped-stored :
      (es : List Versioned)
      → entries_from order (packed sought) (map stored es) ≡ map stored (dropped es)
  unfolding dropped entries_from
  dropped-stored [] = refl
  dropped-stored (e ∷ es) = ground (arith, dropped-stored es)

  -- The entries that are dropped lie below the target, or above the snapshot.
  module _ (fit : snapshot ≤ max_sequence_number) where
    dropped-Fits : (es : List Versioned) → All Fits es → All Fits (dropped es)
    unfolding dropped
    dropped-Fits [] fits = tt
    dropped-Fits (e ∷ es) fits =
        Bool-both (is_negative (order (packed e.0) (packed sought)))
          (λ b. All Fits (if b then dropped es else e ∷ es)) (dropped-Fits es fits.1) fits

    dropped-IsSorted : (es : List Versioned) → IsSorted es → IsSorted (dropped es)
    unfolding dropped
    dropped-IsSorted [] sorted = tt
    dropped-IsSorted (e ∷ es) sorted =
        Bool-both (is_negative (order (packed e.0) (packed sought)))
          (λ b. IsSorted (if b then dropped es else e ∷ es)) (dropped-IsSorted es sorted.1) sorted

    length-dropped : (es : List Versioned) → length (dropped es) ≤ length es
    unfolding dropped
    length-dropped [] = omega arith
    length-dropped (e ∷ es) = ground (arith, length-dropped es)

    -- An entry that is dropped and that the snapshot sees has a key below the target.
    dropped_below :
        (e : Versioned) (u : Bytes)
        → Fits e
        → is_negative (order (packed e.0) (packed sought)) ≡ true
        → (leb e.0.sequence snapshot && same e.0.user_key u) ≡ true
        → is_negative (compare u target) ≡ true
    dropped_below e u fits lower seen =
        let here : e.0.user_key ≡ u = eq_of_same e.0.user_key u (ground arith) in
        subst (λ (x : Bytes). is_negative (compare x target) ≡ true) here
          (ground
            (arith, internal_compare_lem bytewise_comparator e.0 sought fits fit, code-le e.0.type))

    kept_above :
        (e : Versioned)
        → Fits e
        → is_negative (order (packed e.0) (packed sought)) ≡ false
        → compare e.0.user_key target ≢ negative
    kept_above e fits kept below =
        ground (arith, internal_compare_lem bytewise_comparator e.0 sought fits fit)

    -- A key below the target has no entry among those that are kept.
    kept-none :
        (e : Versioned) (es : List Versioned) (u : Bytes)
        → All (Behind e) es
        → compare e.0.user_key target ≢ negative
        → is_negative (compare u target) ≡ true
        → newest snapshot u (e ∷ es) ≡ none
    kept-none e es u behind above lower =
        let low : compare u e.0.user_key ≡ negative =
          lt_le_trans u target e.0.user_key (negative_is _ lower)
            (λ p. above ((compare_antisymmetric e.0.user_key target).1.1 p)) in
        newest-none snapshot u (e ∷ es) (
          low,
          All-weaken (Behind e) (λ (f : Versioned). compare u f.0.user_key ≡ negative) es
              (λ f b. elim b [
                | inl below ↦ compare_trans u e.0.user_key f.0.user_key low below
                | inr (here, _) ↦ subst (λ (x : Bytes). compare u x ≡ negative) here low
              ])
              behind,
        )

    newest-dropped :
        (u : Bytes) (es : List Versioned)
        → All Fits es
        → IsSorted es
        → newest snapshot u (dropped es)
          ≡ (if is_negative (compare u target) then none else newest snapshot u es)
    unfolding dropped
    newest-dropped u [] fits sorted = unfold newest in ground arith
    newest-dropped u (e ∷ es) fits (rising, sorted) =
        let behind = All-Behind e es fits rising in
        elim (Bool-cases (is_negative (order (packed e.0) (packed sought)))) [
          | inl lower ↦ ground (
            arith,
            newest_first snapshot u e es behind,
            newest-dropped u es fits.1 sorted,
            dropped_below e u fits.0 lower,
          )
          | inr kept ↦ ground (arith, kept-none e es u behind (kept_above e fits.0 kept))
        ]

module _ {S R : Type 0} (it : Iterator S) (sample : Bytes → ℕ → R → R) (snapshot : ℕ)
    (Over : S → List Entry → Type 0) (At : S → List Entry → List Entry → Type 0)
    (law : IsForward it order Over At) (all : List Versioned) (bound : ℕ) where
  -- A walk that starts at some of the entries.
  module _ (es : List Versioned) (d : DbIter S R) (enough : length es < bound)
      (turned : d.direction ≡ forward) (here : At d.iter (map stored all) (map stored es))
      (fits : All Fits es) (sorted : IsSorted es) where
    walk :
        (out : List Entry) × ((show_next it bytewise_comparator sample snapshot bound d
            >>= collect it bytewise_comparator sample snapshot bound bound)
          ≡ some out)
        × IsAscending out
        × ((u : Bytes) → find u out ≡ live (newest snapshot u es))
    walk =
        let (r, done, stands) =
          show_next_lem it bytewise_comparator sample snapshot order Over At law all bound d es
            (omega arith) turned here fits in
        let out = view bytewise_comparator snapshot none es in
        (
          out,
          rw done (
              collect_lem it bytewise_comparator sample snapshot order Over At law all bound bound
                out r (omega (arith, view_size snapshot none es)) stands),
          view-IsAscending snapshot none es fits sorted,
          λ u. find-view snapshot none u es fits sorted (unhidden es),
        )

  -- A walk from `SeekToFirst` over sorted internal entries ends, and shows the user keys in rising order,
  -- each with the value of the entry with the largest sequence number that the snapshot sees, unless
  -- that entry is a deletion.
  pub collect-seek_to_first :
      (d : DbIter S R)
      → Over d.iter (map stored all)
      → All Fits all
      → IsSorted all
      → length all < bound
      → (out : List Entry) × ((seek_to_first it bytewise_comparator sample snapshot bound d
            >>= collect it bytewise_comparator sample snapshot bound bound)
          ≡ some out)
        × IsAscending out
        × ((u : Bytes) → find u out ≡ live (newest snapshot u all))
  unfolding seek_to_first
  collect-seek_to_first d over fits sorted enough =
      walk all (record d { direction = forward; saved_value = []; iter = it.seek_to_first d.iter })
        enough refl (law.at_first d.iter (map stored all) over) fits sorted

  -- The same from `Seek`, of the keys that are not below the target.
  pub collect-seek :
      (d : DbIter S R) (target : Bytes)
      → snapshot ≤ max_sequence_number
      → Over d.iter (map stored all)
      → All Fits all
      → IsSorted all
      → length all < bound
      → (out : List Entry) × ((seek it bytewise_comparator sample snapshot bound target d
            >>= collect it bytewise_comparator sample snapshot bound bound)
          ≡ some out)
        × IsAscending out
        × ((u : Bytes)
            → find u out
              ≡ (if is_negative (compare u target) then none else live (newest snapshot u all)))
  unfolding seek
  collect-seek d target fit over fits sorted enough =
      let es = dropped snapshot target all in
      let d' = record d {
        direction = forward;
        saved_value = [];
        saved_key = packed (sought snapshot target);
        iter = it.seek (packed (sought snapshot target)) d.iter;
      } in
      let here =
        subst (At d'.iter (map stored all)) (dropped-stored snapshot target all)
          (law.at_target d.iter (map stored all) (packed (sought snapshot target)) over) in
      let (out, done, rising, shows) =
        walk es d' (omega (arith, length-dropped snapshot target fit all)) refl here
          (dropped-Fits snapshot target fit all fits)
          (dropped-IsSorted snapshot target fit all sorted) in
      (
        out,
        done,
        rising,
        λ u. ground (arith, shows u, newest-dropped snapshot target fit u all fits sorted),
      )
