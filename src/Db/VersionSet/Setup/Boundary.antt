-- ===== src/Db/VersionSet/Setup/Boundary.antt =====
-- `AddBoundaryInputs` of db/version_set.cc ends, and leaves no boundary file.
use rally_db.Prelude.{
  ℕ, zero, suc, ◌+◌, ◌≤◌, ◌<◌, ◌≡◌, refl, ◌∙◌, sym, ap, subst, List, [], ◌∷◌, ◌++◌, append_assoc,
  append-nil, Bool, true, false, Option, none, some, Option-cases, inl, inr, arith, if◌then◌else◌,
  length, All, Bool-cases,
}
use rally_db.Util.Coding.{Bytes}
use rally_db.Util.Comparator.{bytewise_comparator, is_negative, is_positive}
use rally_db.Util.Comparator.Order.{sides}
use rally_db.Db.Format.{internal_compare, extract_user_key}
use rally_db.Db.Format.Order.{order}
use rally_db.Db.Format.Total.{order-IsOrder}
use rally_db.Db.VersionEdit.{FileMetaData}
use rally_db.Db.VersionSet.Setup.{
  larger_key, find_largest_key, is_boundary, smaller_file, boundary_loop,
  find_smallest_boundary_file, add_boundary_loop, add_boundary_inputs,
}

-- The file starts behind the key.
abbrev behind : Bytes → FileMetaData → Bool
behind key f = is_positive (order f.smallest key)

-- The largest key of the file is not below its smallest one.
abbrev pub IsFile : FileMetaData → Type 0
IsFile f = is_positive (order f.smallest f.largest) ≡ false

-- The two ways round of the internal order.
order_flip : (a b : Bytes) → is_positive (order a b) ≡ is_negative (order b a)
unfolding internal_compare
order_flip a b = elim (sides (extract_user_key a) (extract_user_key b)) [
  | inl (p, q) ↦ ground arith
  | inr (inl (p, q)) ↦ ground arith
  | inr (inr (p, q)) ↦ ground arith
]

behind_of_later :
    (key later : Bytes) (f : FileMetaData)
    → is_positive (order later key) ≡ true
    → behind later f ≡ true
    → behind key f ≡ true
behind_of_later key later f le h =
    order_flip f.smallest key
    ∙ order-IsOrder.lt_trans key later f.smallest (sym (order_flip later key) ∙ le)
        (sym (order_flip f.smallest later) ∙ h)

-- A file that starts behind a key ends behind it.
ends_later :
    (key : Bytes) (f : FileMetaData)
    → IsFile f
    → behind key f ≡ true
    → is_positive (order f.largest key) ≡ true
ends_later key f is h = elim (Bool-cases (is_positive (order f.largest key))) [
  | inl later ↦ later
  | inr early ↦
      let wrong =
        order-IsOrder.ge_trans key f.largest f.smallest (sym (order_flip f.largest key) ∙ early)
          (sym (order_flip f.smallest f.largest) ∙ is) in
      cc (wrong, order_flip f.smallest key, h)
]

-- The files that start behind the key.
count : Bytes → List FileMetaData → ℕ
count key [] = 0
count key (f ∷ files) = (if behind key f then 1 else 0) + count key files

count-le : (key : Bytes) (files : List FileMetaData) → count key files ≤ length files
unfolding count
count-le key [] = omega arith
count-le key (f ∷ files) = let rest = count-le key files in ground arith

count_later :
    (key later : Bytes) (files : List FileMetaData)
    → is_positive (order later key) ≡ true
    → count later files ≤ count key files
unfolding count
count_later key later [] h = omega arith
count_later key later (f ∷ files) h =
    let rest = count_later key later files h in
    elim (Bool-cases (behind later f)) [
      | inl b ↦ let b' = behind_of_later key later f h b in ground arith
      | inr b ↦ ground arith
    ]

-- Fewer files start behind the limit of one of the files that did.
count_fewer :
    (key : Bytes) (pre files : List FileMetaData) (f : FileMetaData)
    → IsFile f
    → behind key f ≡ true
    → count f.largest (pre ++ f ∷ files) < count key (pre ++ f ∷ files)
unfolding count
count_fewer key [] files f is h =
    let rest = count_later key f.largest files (ends_later key f is h) in ground arith
count_fewer key (g ∷ pre) files f is h =
    let rest = count_fewer key pre files f is h in
    elim (Bool-cases (behind f.largest g)) [
      | inl b ↦ let b' = behind_of_later key f.largest g (ends_later key f is h) b in ground arith
      | inr b ↦ ground arith
    ]

module _ (all : List FileMetaData) where
  -- One of the files.
  abbrev pub Among : FileMetaData → Type 0
  Among f =
      IsFile f × (pre : List FileMetaData) × (post : List FileMetaData) × (all ≡ pre ++ f ∷ post)

  all-Among :
      (pre files : List FileMetaData) → all ≡ pre ++ files → All IsFile files → All Among files
  all-Among pre [] split is = tt
  all-Among pre (f ∷ files) split (i, is) = (
    (i, pre, files, split),
    all-Among (pre ++ f ∷ []) files (split ∙ sym (append_assoc pre (f ∷ []) files)) is,
  )

  Chosen : Bytes → Option FileMetaData → Type 0
  Chosen key none = Unit {0}
  Chosen key (some f) = Among f × (is_boundary bytewise_comparator key f ≡ true)

  Chosen-smaller_file :
      (key : Bytes) (f : FileMetaData) (found : Option FileMetaData)
      → Among f
      → is_boundary bytewise_comparator key f ≡ true
      → Chosen key found
      → Chosen key (smaller_file bytewise_comparator f found)
  unfolding Chosen smaller_file
  Chosen-smaller_file key f none among is h = (among, is)
  Chosen-smaller_file key f (some s) among is h =
      elim (Bool-cases (is_negative (order f.smallest s.smallest))) [
        | inl b ↦ rw b (among, is)
        | inr b ↦ rw b h
      ]

  Chosen-boundary_loop :
      (key : Bytes) (files : List FileMetaData) (found : Option FileMetaData)
      → All Among files
      → Chosen key found
      → Chosen key (boundary_loop bytewise_comparator files key found)
  unfolding boundary_loop
  Chosen-boundary_loop key [] found among h = h
  Chosen-boundary_loop key (f ∷ files) found (here, among) h =
      elim (Bool-cases (is_boundary bytewise_comparator key f)) [
        | inl b ↦ rw b (
            Chosen-boundary_loop key files (smaller_file bytewise_comparator f found) among
              (Chosen-smaller_file key f found here b h))
        | inr b ↦ rw b (Chosen-boundary_loop key files found among h)
      ]

boundary_kept :
    (key : Bytes) (files : List FileMetaData) (s : FileMetaData)
    → (s' : FileMetaData) × (boundary_loop bytewise_comparator files key (some s) ≡ some s')
unfolding boundary_loop smaller_file
boundary_kept key [] s = (s, refl)
boundary_kept key (f ∷ files) s = elim (Bool-cases (is_boundary bytewise_comparator key f)) [
  | inl b ↦ elim (Bool-cases (is_negative (order f.smallest s.smallest))) [
    | inl less ↦ rw (b, less) (boundary_kept key files f)
    | inr more ↦ rw (b, more) (boundary_kept key files s)
  ]
  | inr b ↦ rw b (boundary_kept key files s)
]

-- When no file is found there is no boundary file.
no_boundary :
    (key : Bytes) (files : List FileMetaData)
    → boundary_loop bytewise_comparator files key none ≡ none
    → All (λ f. is_boundary bytewise_comparator key f ≡ false) files
unfolding boundary_loop smaller_file
no_boundary key [] h = tt
no_boundary key (f ∷ files) h = elim (Bool-cases (is_boundary bytewise_comparator key f)) [
  | inl b ↦ let (s, kept) = boundary_kept key files f in absurd (ground (arith, b, h, kept))
  | inr b ↦ (b, no_boundary key files (ground (arith, b, h)))
]

behind_of_boundary :
    (key : Bytes) (f : FileMetaData)
    → is_boundary bytewise_comparator key f ≡ true
    → behind key f ≡ true
unfolding is_boundary
behind_of_boundary key f h = ground arith

larger_key-snoc :
    (files : List FileMetaData) (f : FileMetaData) (key : Bytes)
    → is_positive (order f.largest (larger_key bytewise_comparator files key)) ≡ true
    → larger_key bytewise_comparator (files ++ f ∷ []) key ≡ f.largest
unfolding larger_key
larger_key-snoc [] f key h = rw h refl
larger_key-snoc (g ∷ files) f key h =
    larger_key-snoc files f (if is_positive (order g.largest key) then g.largest else key) h

find_largest_key-snoc :
    (files : List FileMetaData) (f : FileMetaData) (key : Bytes)
    → find_largest_key bytewise_comparator files ≡ some key
    → is_positive (order f.largest key) ≡ true
    → find_largest_key bytewise_comparator (files ++ f ∷ []) ≡ some f.largest
unfolding find_largest_key
find_largest_key-snoc [] f key e h = cc
find_largest_key-snoc (g ∷ files) f key e h =
    let is : larger_key bytewise_comparator files g.largest ≡ key = cc in
    ap some (larger_key-snoc files f g.largest (rw is h))

next_round :
    (all : List FileMetaData) (fuel : ℕ) (key : Bytes) (files : List FileMetaData)
    (f : FileMetaData)
    → boundary_loop bytewise_comparator all key none ≡ some f
    → add_boundary_loop bytewise_comparator (suc fuel) all key files
      ≡ add_boundary_loop bytewise_comparator fuel all f.largest (files ++ f ∷ [])
unfolding add_boundary_loop find_smallest_boundary_file
next_round all fuel key files f is = rw (add_boundary_loop, find_smallest_boundary_file, is) refl

-- The files that are added, and the end of the search.
abbrev Added : List FileMetaData → List FileMetaData → Option (List FileMetaData) → Type 0
Added all files result =
    (added : List FileMetaData) × (result ≡ some (files ++ added))
    × All (Among all) added
    × ((key : Bytes)
        → find_largest_key bytewise_comparator (files ++ added) ≡ some key
        → All (λ f. is_boundary bytewise_comparator key f ≡ false) all)

module _ (all : List FileMetaData) (among : All (Among all) all) where
  add_boundary_loop_lem :
      (fuel : ℕ) (key : Bytes) (files : List FileMetaData)
      → find_largest_key bytewise_comparator files ≡ some key
      → count key all < fuel
      → Added all files (add_boundary_loop bytewise_comparator fuel all key files)
  unfolding add_boundary_loop find_smallest_boundary_file Chosen
  add_boundary_loop_lem zero key files e enough = absurd (omega arith)
  add_boundary_loop_lem (suc fuel) key files e enough =
      elim (Option-cases (boundary_loop bytewise_comparator all key none)) [
        | inl is ↦ (
          [],
          rw (add_boundary_loop, find_smallest_boundary_file, is)
              (ap some (sym (append-nil files))),
          tt,
          λ last l.
              let last_is : last ≡ key =
                cc (l, e, ap (find_largest_key bytewise_comparator) (append-nil files)) in
              rw last_is (no_boundary key all is),
        )
        | inr (f, is) ↦
            let (here, bound) =
              subst (Chosen all key) is (Chosen-boundary_loop all key all none among tt) in
            let (file, pre, post, split) = here in
            let after : behind key f ≡ true = behind_of_boundary key f bound in
            let fewer : count f.largest all < count key all =
              subst (λ (l : List FileMetaData). count f.largest l < count key l) (sym split)
                (count_fewer key pre post f file after) in
            let (added, ends, ok, closed) =
              add_boundary_loop_lem fuel f.largest (files ++ f ∷ [])
                (find_largest_key-snoc files f key e (ends_later key f file after)) (omega arith) in
            let order_of = append_assoc files (f ∷ []) added in
            (
              f ∷ added,
              next_round all fuel key files f is ∙ ends ∙ ap some order_of,
              (here, ok),
              λ last l. closed last (ap (find_largest_key bytewise_comparator) order_of ∙ l),
            )
      ]

-- AddBoundaryInputs ends: it adds files of the level behind the given ones, and no file of the level
-- starts behind the largest key of all of these with the same user key, when the largest key of each
-- file of the level is not below its smallest key.
pub add_boundary_inputs-closed :
    (level_files files : List FileMetaData)
    → All IsFile level_files
    → (added : List FileMetaData) × (add_boundary_inputs bytewise_comparator level_files files
        ≡ some (files ++ added))
      × All (Among level_files) added
      × ((key : Bytes)
          → find_largest_key bytewise_comparator (files ++ added) ≡ some key
          → All (λ f. is_boundary bytewise_comparator key f ≡ false) level_files)
unfolding add_boundary_inputs
add_boundary_inputs-closed level_files files is =
    elim (Option-cases (find_largest_key bytewise_comparator files)) [
      | inl e ↦ (
        [],
        rw (add_boundary_inputs, e) (ap some (sym (append-nil files))),
        tt,
        λ key l. absurd (cc (l, e, ap (find_largest_key bytewise_comparator) (append-nil files))),
      )
      | inr (key, e) ↦
          let few = count-le key level_files in
          let (added, ends, ok, closed) =
            add_boundary_loop_lem level_files (all-Among level_files [] level_files refl is)
              (suc (length level_files)) key files e (omega arith) in
          (added, rw (add_boundary_inputs, e) ends, ok, closed)
    ]
