-- ===== src/Db/VersionSet/Inputs/Scan.antt =====
-- A scan of `GetOverlappingInputs` of db/version_set.cc: what it takes, and when it starts again.
use rally_db.Prelude.{
  ℕ, suc, List, [], ◌∷◌, ◌++◌, append_assoc, append-nil, ◌≡◌, refl, ap, subst, ◌∙◌, ◌⊎◌, inl, inr,
  Bool, true, false, ◌&&◌, not, Option, some, arith, if◌then◌else◌, All, Bool-cases,
}
use rally_db.Util.Coding.{Bytes}
use rally_db.Db.VersionEdit.{FileMetaData}
use rally_db.Db.VersionSet.Overlap.{small, large, user}
use rally_db.Db.VersionSet.Inputs.{
  ends_in_front, starts_behind, starts_in_front, ends_behind, scan_files,
}

-- The file and the range have a key in common.
abbrev pub overlaps : (begin end : Option Bytes) → FileMetaData → Bool
overlaps begin end f = not (ends_in_front user begin f) && not (starts_behind user end f)

unfoldable pub selected : (begin end : Option Bytes) → List FileMetaData → List FileMetaData
selected begin end [] = []
selected begin end (f ∷ files) =
    let rest = selected begin end files in if overlaps begin end f then f ∷ rest else rest

-- The file does not reach out of the range.
abbrev pub Inside : (begin end : Option Bytes) → FileMetaData → Type 0
Inside begin end f = (starts_in_front user begin f ≡ false) × (ends_behind user end f ≡ false)

unfoldable pub In : FileMetaData → List FileMetaData → Type 0
In f [] = ⊥
In f (g ∷ files) = (f ≡ g) ⊎ In f files

-- Above level 0 the first scan is the last.
pub scan_above :
    (level : ℕ) (files : List FileMetaData) (begin end : Option Bytes) (inputs : List FileMetaData)
    → scan_files user (suc level) files begin end inputs ≡ inl (inputs ++ selected begin end files)
unfolding scan_files selected
scan_above level [] begin end inputs = rw append-nil
scan_above level (f ∷ files) begin end inputs = ground (
  arith,
  scan_above level files begin end inputs,
  scan_above level files begin end (inputs ++ f ∷ []),
  append_assoc inputs (f ∷ []) (selected begin end files),
)

-- What a scan of level 0 ends with.
abbrev pub Scanned :
    List FileMetaData
    → (begin end : Option Bytes) → List FileMetaData
    → List FileMetaData ⊎ (Option Bytes × Option Bytes)
    → Type 0
Scanned files begin end inputs r =
    ((r ≡ inl (inputs ++ selected begin end files))
      × All (Inside begin end) (selected begin end files))
    ⊎ ((f : FileMetaData) × In f files
        × (((starts_in_front user begin f ≡ true) × (r ≡ inr (some (small f), end)))
            ⊎ ((ends_behind user end f ≡ true) × (r ≡ inr (begin, some (large f))))))

module _ (f : FileMetaData) (files : List FileMetaData) (begin end : Option Bytes) where
  selected-past :
      overlaps begin end f ≡ false → selected begin end (f ∷ files) ≡ selected begin end files
  unfolding selected
  selected-past h = ground arith

  selected-here :
      overlaps begin end f ≡ true → selected begin end (f ∷ files) ≡ f ∷ selected begin end files
  unfolding selected
  selected-here h = ground arith

  -- One more file in front, which does not overlap.
  past :
      (inputs : List FileMetaData) (r : List FileMetaData ⊎ (Option Bytes × Option Bytes))
      → overlaps begin end f ≡ false
      → Scanned files begin end inputs r
      → Scanned (f ∷ files) begin end inputs r
  unfolding In
  past inputs r h (inl (e, inside)) = inl (rw (selected-past h) (e, inside))
  past inputs r h (inr (g, m, why)) = inr (g, inr m, why)

  -- One that does, and does not reach out of the range.
  here :
      (inputs : List FileMetaData) (r : List FileMetaData ⊎ (Option Bytes × Option Bytes))
      → overlaps begin end f ≡ true
      → Inside begin end f
      → Scanned files begin end (inputs ++ f ∷ []) r
      → Scanned (f ∷ files) begin end inputs r
  unfolding In
  here inputs r h i (inl (e, inside)) = inl (
      rw (selected-here h)
        (e ∙ ap inl (append_assoc inputs (f ∷ []) (selected begin end files)), (i, inside)))
  here inputs r h i (inr (g, m, why)) = inr (g, inr m, why)

pub scan_zero :
    (files : List FileMetaData) (begin end : Option Bytes) (inputs : List FileMetaData)
    → Scanned files begin end inputs (scan_files user 0 files begin end inputs)
scan_zero [] begin end inputs = unfold scan_files selected in inl (rw append-nil, tt)
scan_zero (f ∷ files) begin end inputs =
    go (scan_zero files begin end inputs) (scan_zero files begin end (inputs ++ f ∷ []))
  where
    go :
        Scanned files begin end inputs (scan_files user 0 files begin end inputs)
        → Scanned files begin end
            (inputs ++ f ∷ [])
            (scan_files user 0 files begin end (inputs ++ f ∷ []))
        → Scanned (f ∷ files) begin end inputs (scan_files user 0 (f ∷ files) begin end inputs)
    go skipped taken = elim (Bool-cases (overlaps begin end f)) [
      | inr apart ↦
          let e : scan_files user 0 files begin end inputs
              ≡ scan_files user 0 (f ∷ files) begin end inputs =
            unfold scan_files in ground arith in
          subst (Scanned (f ∷ files) begin end inputs) e
            (past f files begin end inputs _ apart skipped)
      | inl meets ↦ elim (Bool-cases (starts_in_front user begin f)) [
        | inl front ↦ inr (f, unfold In in inl refl, inl (front, unfold scan_files in ground arith))
        | inr not_front ↦ elim (Bool-cases (ends_behind user end f)) [
          | inl behind ↦
              inr (f, unfold In in inl refl, inr (behind, unfold scan_files in ground arith))
          | inr not_behind ↦
              let e : scan_files user 0 files begin end (inputs ++ f ∷ [])
                  ≡ scan_files user 0 (f ∷ files) begin end inputs =
                unfold scan_files in ground arith in
              subst (Scanned (f ∷ files) begin end inputs) e
                (here f files begin end inputs _ meets (not_front, not_behind) taken)
        ]
      ]
    ]
