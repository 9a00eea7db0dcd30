-- ===== src/Db/VersionSet/Inputs/Closed.antt =====
-- `GetOverlappingInputs` of db/version_set.cc: it ends, with the files that overlap a range that holds
-- the given one; at level 0 no input reaches out of that range.
use rally_db.Prelude.{
  ℕ, zero, suc, ◌+◌, ◌*◌, ◌<◌, ◌≤◌, List, [], ◌∷◌, ◌≡◌, refl, subst, inl, inr, Bool, true, false,
  Option, none, some, arith, if◌then◌else◌, length, All, Bool-cases,
}
use rally_db.Util.Coding.{Bytes}
use rally_db.Util.Comparator.{
  null, positive, compare, is_negative, is_positive, positive_is, negative_is,
}
use rally_db.Util.Comparator.Order.{compare_antisymmetric, compare_trans}
use rally_db.Db.VersionEdit.{FileMetaData}
use rally_db.Db.VersionSet.Overlap.{small, large, user}
use rally_db.Db.VersionSet.Inputs.{
  ends_in_front, starts_behind, starts_in_front, ends_behind, overlapping_loop,
  get_overlapping_inputs, user_part_of,
}
use rally_db.Db.VersionSet.Inputs.Scan.{overlaps, selected, Inside, In, scan_above, scan_zero}

count : (FileMetaData → Bool) → List FileMetaData → ℕ
count p [] = 0
count p (f ∷ files) = let rest = count p files in if p f then suc rest else rest

count-le : (p : FileMetaData → Bool) (files : List FileMetaData) → count p files ≤ length files
unfolding count
count-le p [] = omega arith
count-le p (f ∷ files) = ground (arith, count-le p files)

module _ (p q : FileMetaData → Bool) (fewer : (g : FileMetaData) → q g ≡ true → p g ≡ true) where
  count_mono : (files : List FileMetaData) → count q files ≤ count p files
  unfolding count
  count_mono [] = omega arith
  count_mono (f ∷ files) = ground (arith, count_mono files, fewer f)

  count_lt :
      (f : FileMetaData) (files : List FileMetaData)
      → In f files
      → p f ≡ true
      → q f ≡ false
      → count q files < count p files
  unfolding count In
  count_lt f [] m yes_p no_q = elim m [ ]
  count_lt f (g ∷ files) (inl e) yes_p no_q =
      let a : p g ≡ true = subst (λ (x : FileMetaData). p x ≡ true) e yes_p in
      let b : q g ≡ false = subst (λ (x : FileMetaData). q x ≡ false) e no_q in
      ground (arith, count_mono files)
  count_lt f (g ∷ files) (inr m) yes_p no_q = ground (arith, count_lt f files m yes_p no_q, fewer g)

-- The restarts that are left at most.
abbrev restarts : (begin end : Option Bytes) → List FileMetaData → ℕ
restarts begin end files =
    count (starts_in_front user begin) files + count (ends_behind user end) files

self_null : (a : Bytes) → compare a a ≡ null
self_null a = (compare_antisymmetric a a).0.1 refl

positive_trans :
    (a b c : Bytes) → compare a b ≡ positive → compare b c ≡ positive → compare a c ≡ positive
positive_trans a b c p q =
    (compare_antisymmetric c a).1.0
      (compare_trans c b a ((compare_antisymmetric c b).1.1 q) ((compare_antisymmetric b a).1.1 p))

module _ (f : FileMetaData) where
  -- The range from the start of `f` on, which lies in front of the range.
  front_fewer :
      (begin : Option Bytes)
      → starts_in_front user begin f ≡ true
      → (g : FileMetaData) → starts_in_front user (some (small f)) g ≡ true
      → starts_in_front user begin g ≡ true
  unfolding starts_in_front
  front_fewer none h g k = absurd (ground arith)
  front_fewer (some x) h g k =
      rw (compare_trans (small g) (small f) x (negative_is _ k) (negative_is _ h))

  front_wider :
      (begin end : Option Bytes)
      → starts_in_front user begin f ≡ true
      → (g : FileMetaData) → overlaps begin end g ≡ true
      → overlaps (some (small f)) end g ≡ true
  unfolding starts_in_front ends_in_front
  front_wider none end h g k = absurd (ground arith)
  front_wider (some x) end h g k = elim (Bool-cases (is_negative (compare (large g) (small f)))) [
    | inr fine ↦ ground arith
    | inl low ↦
        let lower = compare_trans (large g) (small f) x (negative_is _ low) (negative_is _ h) in
        absurd (ground arith)
  ]

  front_self : starts_in_front user (some (small f)) f ≡ false
  unfolding starts_in_front
  front_self = rw (self_null (small f))

  behind_fewer :
      (end : Option Bytes)
      → ends_behind user end f ≡ true
      → (g : FileMetaData) → ends_behind user (some (large f)) g ≡ true
      → ends_behind user end g ≡ true
  unfolding ends_behind
  behind_fewer none h g k = absurd (ground arith)
  behind_fewer (some x) h g k =
      rw (positive_trans (large g) (large f) x (positive_is _ k) (positive_is _ h))

  behind_wider :
      (begin end : Option Bytes)
      → ends_behind user end f ≡ true
      → (g : FileMetaData) → overlaps begin end g ≡ true
      → overlaps begin (some (large f)) g ≡ true
  unfolding ends_behind starts_behind
  behind_wider begin none h g k = absurd (ground arith)
  behind_wider begin (some x) h g k =
      elim (Bool-cases (is_positive (compare (small g) (large f)))) [
        | inr fine ↦ ground arith
        | inl high ↦
            let higher =
              positive_trans (small g) (large f) x (positive_is _ high) (positive_is _ h) in
            absurd (ground arith)
      ]

  behind_self : ends_behind user (some (large f)) f ≡ false
  unfolding ends_behind
  behind_self = rw (self_null (large f))

module _ (files : List FileMetaData) where
  -- What the loop ends with: the files that overlap some range, which all lie in it. It is wider.
  abbrev Ends : (begin end : Option Bytes) → Option (List FileMetaData) → Type 0
  Ends begin end r =
      (last_begin : Option Bytes) × (last_end : Option Bytes) × (r
        ≡ some (selected last_begin last_end files))
      × All (Inside last_begin last_end) (selected last_begin last_end files)
      × ((g : FileMetaData) → overlaps begin end g ≡ true → overlaps last_begin last_end g ≡ true)

  loop-Ends :
      (fuel : ℕ) (begin end : Option Bytes)
      → restarts begin end files < fuel
      → Ends begin end (overlapping_loop user fuel 0 files begin end)
  unfolding overlapping_loop
  loop-Ends zero begin end enough = absurd (omega arith)
  loop-Ends (suc fuel) begin end enough = elim (scan_zero files begin end []) [
    | inl (done, inside) ↦ (begin, end, ground arith, inside, λ g k. k)
    | inr (f, m, inl (front, again)) ↦
        let (b, e, r, inside, wider) = loop-Ends fuel (some (small f)) end (
          omega (
            arith,
            count_lt (starts_in_front user begin) (starts_in_front user (some (small f)))
                (front_fewer f begin front) f files m front (front_self f),
          )) in
        (b, e, ground arith, inside, λ g k. wider g (front_wider f begin end front g k))
    | inr (f, m, inr (behind, again)) ↦
        let (b, e, r, inside, wider) = loop-Ends fuel begin (some (large f)) (
          omega (
            arith,
            count_lt (ends_behind user end) (ends_behind user (some (large f)))
                (behind_fewer f end behind) f files m behind (behind_self f),
          )) in
        (b, e, ground arith, inside, λ g k. wider g (behind_wider f begin end behind g k))
  ]

selected-selected :
    (b e b' e' : Option Bytes) (files : List FileMetaData)
    → ((g : FileMetaData) → overlaps b e g ≡ true → overlaps b' e' g ≡ true)
    → selected b e (selected b' e' files) ≡ selected b e files
unfolding selected
selected-selected b e b' e' [] wider = refl
selected-selected b e b' e' (f ∷ files) wider = elim (Bool-cases (overlaps b e f)) [
  | inl yes_here ↦ ground (arith, selected-selected b e b' e' files wider, wider f yes_here)
  | inr no_here ↦ ground (arith, selected-selected b e b' e' files wider)
]

-- At level 0, GetOverlappingInputs ends with the files that overlap some range: none of them reaches
-- out of that range, and those of them that overlap the given range are the files that do.
pub get_overlapping_inputs-closed :
    (files : List FileMetaData) (begin end : Option Bytes)
    → (inputs : List FileMetaData) × (last_begin : Option Bytes) × (last_end : Option Bytes)
      × (get_overlapping_inputs user 0 files begin end ≡ some inputs)
      × (inputs ≡ selected last_begin last_end files)
      × All (Inside last_begin last_end) inputs
      × (selected (user_part_of begin) (user_part_of end) inputs
          ≡ selected (user_part_of begin) (user_part_of end) files)
unfolding get_overlapping_inputs
get_overlapping_inputs-closed files begin end =
    let (b, e, r, inside, wider) =
      loop-Ends files (2 * length files + 1) (user_part_of begin) (user_part_of end) (
        omega (
          arith,
          count-le (starts_in_front user (user_part_of begin)) files,
          count-le (ends_behind user (user_part_of end)) files,
        )) in
    (
      selected b e files,
      b,
      e,
      r,
      refl,
      inside,
      selected-selected (user_part_of begin) (user_part_of end) b e files wider,
    )

-- Above level 0, GetOverlappingInputs ends with the files that overlap the given range.
pub get_overlapping_inputs-selected :
    (level : ℕ) (files : List FileMetaData) (begin end : Option Bytes)
    → get_overlapping_inputs user (suc level) files begin end
      ≡ some (selected (user_part_of begin) (user_part_of end) files)
unfolding get_overlapping_inputs
get_overlapping_inputs-selected level files begin end =
    loop-suc (2 * length files) (user_part_of begin) (user_part_of end)
  where
    loop-suc :
        (n : ℕ) (b e : Option Bytes)
        → overlapping_loop user (n + 1) (suc level) files b e ≡ some (selected b e files)
    loop-suc n b e =
        let again : n + 1 ≡ suc n = omega arith in
        rw again (unfold overlapping_loop in ground (arith, scan_above level files b e []))
