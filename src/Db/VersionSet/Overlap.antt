-- ===== src/Db/VersionSet/Overlap.antt =====
-- `SomeFileOverlapsRange` of db/version_set.cc: the binary search among the files of a level above 0, against the check of
-- all files.
use rally_db.Prelude.{
  ℕ, suc, ◌+◌, ◌*◌, ◌^◌, ◌≤◌, ◌<◌, ◌≡◌, ◌≢◌, ◌∙◌, refl, sym, List, [], ◌∷◌, true, false, not,
  Option, none, some, inl, inr, arith, ltb, leb, if◌then◌else◌, length, get_or, All, Bool-cases,
}
use rally_db.Util.Coding.{Bytes, put_fixed64}
use rally_db.Util.Comparator.{
  negative, positive, Comparator, bytewise_comparator, compare, is_positive, positive_is,
  negative_is,
}
use rally_db.Util.Comparator.Order.{compare_antisymmetric, sides, le_lt_trans, lt_le_trans}
use rally_db.Db.Format.{
  internal_compare, extract_user_key, extract_tag, append_internal_key, pack_sequence_and_type,
  max_sequence_number, value_type_for_seek, value,
}
use rally_db.Db.Format.Parse.{pack_lem, extract_user_key_lem, extract_tag_lem}
use rally_db.Db.VersionEdit.{FileMetaData}
use rally_db.Db.VersionSet.{
  no_file, ends_before, after_file, before_file, any_overlaps, first_candidate,
  some_file_overlaps_range,
}
use rally_db.Db.VersionSet.Search.{
  first_not, IsSplit, first_not-same, same-IsSplit, find_file-first_not,
}

abbrev pub small : FileMetaData → Bytes
small f = extract_user_key f.smallest

abbrev pub large : FileMetaData → Bytes
large f = extract_user_key f.largest

-- The files of a level above 0, by their user keys: each has its keys in order, and does not end behind the start of one
-- that follows it, which may begin with the same user key; the tag of a key is at most the largest that there is.
unfoldable pub IsLevel : List FileMetaData → Type 0
IsLevel [] = Unit {0}
IsLevel (f ∷ files) =
    ((compare (small f) (large f) ≢ positive)
      × (extract_tag f.largest ≤ max_sequence_number * 256 + 1))
    × All (λ g. compare (large f) (small g) ≢ positive) files
    × IsLevel files

abbrev pub user : Comparator
user = bytewise_comparator

-- A file behind one that the key is not behind.
later_after :
    (key : Option Bytes) (f : FileMetaData) (files : List FileMetaData)
    → after_file user key f ≡ false
    → All (λ g. compare (large f) (small g) ≢ positive) files
    → IsLevel files
    → All (λ g. after_file user key g ≡ false) files
unfolding after_file IsLevel
later_after key f [] h behind level = tt
later_after none f (g ∷ files) h (b, behind) ((o, t), a, level) =
    (refl, later_after none f files h behind level)
later_after (some key) f (g ∷ files) h (b, behind) ((o, t), a, level) =
    (here, later_after (some key) f files h behind level)
  where
    here : is_positive (compare key (large g)) ≡ false
    here = elim (Bool-cases (is_positive (compare key (large g)))) [
      | inr no_after ↦ no_after
      | inl yes_after ↦
          let p : compare (large g) key ≡ negative =
            (compare_antisymmetric (large g) key).1.1 (positive_is _ yes_after) in
          let q : compare (large f) key ≡ negative =
            le_lt_trans (large f) (small g) key b (le_lt_trans (small g) (large g) key o p) in
          let r : compare key (large f) ≡ positive = (compare_antisymmetric (large f) key).1.0 q in
          let wrong : true ≡ false = rw r at h in absurd (ground arith)
    ]

-- A file behind one that the key is in front of.
later_before :
    (key : Option Bytes) (f : FileMetaData) (files : List FileMetaData)
    → before_file user key f ≡ true
    → compare (small f) (large f) ≢ positive
    → All (λ g. compare (large f) (small g) ≢ positive) files
    → All (λ g. before_file user key g ≡ true) files
unfolding before_file
later_before key f [] h o behind = tt
later_before none f (g ∷ files) h o behind = absurd (ground arith)
later_before (some key) f (g ∷ files) h o (b, behind) = (
  rw
      (lt_le_trans key (large f) (small g) (lt_le_trans key (small f) (large f) (negative_is _ h) o)
        b)
      refl,
  later_before (some key) f files h o behind,
)

nothing_overlaps :
    (smallest largest : Option Bytes) (files : List FileMetaData)
    → All (λ g. before_file user largest g ≡ true) files
    → any_overlaps user files smallest largest ≡ false
unfolding any_overlaps
nothing_overlaps smallest largest [] h = refl
nothing_overlaps smallest largest (f ∷ files) (b, h) =
    elim (Bool-cases (after_file user smallest f)) [
      | inl a ↦ rw (any_overlaps, a) (nothing_overlaps smallest largest files h)
      | inr a ↦ rw (any_overlaps, a, b) (nothing_overlaps smallest largest files h)
    ]

after_file-IsSplit :
    (key : Option Bytes) (files : List FileMetaData)
    → IsLevel files
    → IsSplit (after_file user key) files
unfolding IsSplit IsLevel
after_file-IsSplit key [] level = tt
after_file-IsSplit key (f ∷ files) ((o, t), behind, level) =
    elim (Bool-cases (after_file user key f)) [
      | inl a ↦ (inl a, after_file-IsSplit key files level)
      | inr a ↦ (inr (later_after key f files a behind level), after_file-IsSplit key files level)
    ]

-- The check of one file is enough: the first one that the range does not begin behind.
any_overlaps-first_not :
    (files : List FileMetaData) (smallest largest : Option Bytes)
    → IsLevel files
    → any_overlaps user files smallest largest ≡ (
        let index = first_not (after_file user smallest) files in
        if leb (length files) index
        then false
        else not (before_file user largest (get_or files index no_file)))
unfolding any_overlaps first_not IsLevel
any_overlaps-first_not [] smallest largest level = refl
any_overlaps-first_not (f ∷ files) smallest largest ((o, t), behind, level) =
    elim (Bool-cases (after_file user smallest f)) [
      | inl a ↦
          let rest = any_overlaps-first_not files smallest largest level in
          let index : ℕ = first_not (after_file user smallest) files in
          let next : leb (suc (length files)) (suc index) ≡ leb (length files) index =
            ground arith in
          rw (any_overlaps, first_not, a, next) rest
      | inr a ↦
          let inside : leb (suc (length files)) 0 ≡ false = ground arith in
          elim (Bool-cases (before_file user largest f)) [
            | inl b ↦
                rw (any_overlaps, first_not, a, b, inside)
                  (nothing_overlaps smallest largest files
                    (later_before largest f files b o behind))
            | inr b ↦ rw (any_overlaps, first_not, a, b, inside) refl
          ]
    ]

-- The internal key that `FindFile` looks for stands in front of all that have the user key.
abbrev seek_key : Bytes → Bytes
seek_key key =
    append_internal_key []
      (record { user_key = key; sequence = max_sequence_number; type = value_type_for_seek })

ends_before-seek_key :
    (key : Bytes) (f : FileMetaData)
    → extract_tag f.largest ≤ max_sequence_number * 256 + 1
    → ends_before user (seek_key key) f ≡ after_file user (some key) f
unfolding ends_before after_file internal_compare append_internal_key
ends_before-seek_key key f h =
    let tag : ℕ = pack_sequence_and_type max_sequence_number value in
    let packed : tag ≡ max_sequence_number * 256 + 1 =
      pack_lem max_sequence_number value (omega arith) in
    let user_part : extract_user_key (put_fixed64 key tag) ≡ key =
      extract_user_key_lem key tag (omega arith) in
    let tag_part : extract_tag (put_fixed64 key tag) ≡ tag =
      extract_tag_lem key tag (omega arith) in
    let no_larger : ltb tag (extract_tag f.largest) ≡ false = ground arith in
    elim (sides (large f) key) [
      | inl (s, t) ↦ rw (internal_compare, user_part, s, t) refl
      | inr (inl (s, t)) ↦ elim (Bool-cases (ltb (extract_tag f.largest) tag)) [
        | inl less ↦ rw (internal_compare, user_part, s, t, tag_part, no_larger, less) refl
        | inr equal ↦ rw (internal_compare, user_part, s, t, tag_part, no_larger, equal) refl
      ]
      | inr (inr (s, t)) ↦ rw (internal_compare, user_part, s, t) refl
    ]

level_agrees :
    (key : Bytes) (files : List FileMetaData)
    → IsLevel files
    → All (λ f. ends_before user (seek_key key) f ≡ after_file user (some key) f) files
unfolding IsLevel
level_agrees key [] level = tt
level_agrees key (f ∷ files) ((o, t), behind, level) =
    (ends_before-seek_key key f t, level_agrees key files level)

first_candidate-first_not :
    (files : List FileMetaData) (key : Option Bytes)
    → IsLevel files
    → length files < 2 ^ 31
    → first_candidate user files key ≡ first_not (after_file user key) files
unfolding first_candidate first_not after_file
first_candidate-first_not [] none level few = refl
first_candidate-first_not (f ∷ files) none level few = refl
first_candidate-first_not files (some key) level few =
    let agree = level_agrees key files level in
    let below = ends_before user (seek_key key) in
    find_file-first_not user (seek_key key) files
      (same-IsSplit below (after_file user (some key)) files agree
        (after_file-IsSplit (some key) files level))
      few
    ∙ first_not-same below (after_file user (some key)) files agree

-- For files of which none ends behind the start of one that follows it, or in front of its own start, by their user keys,
-- whose largest keys have no tag above the largest that there is, less than 2^31 of them and with the bytewise comparator,
-- `SomeFileOverlapsRange` gives the same by its binary search as by its check against all files,
-- for every range, bounded or not. Neighbours may share a user key.
pub some_file_overlaps_range_same :
    (files : List FileMetaData) (smallest largest : Option Bytes)
    → IsLevel files
    → length files < 2 ^ 31
    → some_file_overlaps_range user true files smallest largest
      ≡ some_file_overlaps_range user false files smallest largest
unfolding some_file_overlaps_range
some_file_overlaps_range_same files smallest largest level few =
    rw (first_candidate-first_not files smallest level few)
      (sym (any_overlaps-first_not files smallest largest level))
