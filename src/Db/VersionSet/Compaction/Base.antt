-- ===== src/Db/VersionSet/Compaction/Base.antt =====
-- `IsBaseLevelForKey` of db/version_set.cc, asked for rising keys, against a look at all files.
use rally_db.Prelude.{
  ℕ, zero, suc, ◌+◌, ◌-◌, ◌≡◌, ◌≢◌, ◌⊎◌, inl, inr, refl, ◌∙◌, sym, ap, subst, List, [], ◌∷◌, Bool,
  true, false, ◌&&◌, ◌||◌, not, arith, ◌==◌, ==_iff, if◌then◌else◌, get_or, get_or-set_other, set,
  drop, replicate, map, All, Bool-cases,
}
use rally_db.Util.Coding.{Bytes}
use rally_db.Util.Comparator.{
  positive, negative, bytewise_comparator, compare, is_positive, positive_is, negative_is,
}
use rally_db.Util.Comparator.Order.{sides, lt_le_trans}
use rally_db.Db.Format.{extract_user_key}
use rally_db.Db.VersionEdit.{FileMetaData, num_levels}
use rally_db.Db.VersionSet.Inputs.{files_of}
use rally_db.Db.VersionSet.Compaction.{
  Compaction, is_above, reaches, advance, base_level_loop, is_base_level_for_key,
}

abbrev low : FileMetaData → Bytes
low f = extract_user_key f.smallest

abbrev above : Bytes → FileMetaData → Bool
above = is_above bytewise_comparator

-- The key falls in the range of the file.
abbrev pub covers : Bytes → FileMetaData → Bool
covers key f = not (above key f) && reaches bytewise_comparator key f

unfoldable pub any_covers : Bytes → List FileMetaData → Bool
any_covers key [] = false
any_covers key (f ∷ files) = covers key f || any_covers key files

-- No file of `left` levels from `level` on covers the key.
unfoldable pub none_from : List (List FileMetaData) → (left level : ℕ) → Bytes → Bool
unfolding any_covers
none_from levels zero level key = true
none_from levels (suc left) level key =
    not (any_covers key (files_of levels level)) && none_from levels left (level + 1) key

-- No file starts behind one that follows it.
unfoldable pub StartsRise : List FileMetaData → Type 0
StartsRise [] = Unit {0}
StartsRise (f ∷ files) = All (λ g. compare (low f) (low g) ≢ positive) files × StartsRise files

-- The files in front of a pointer end below the key.
unfoldable pub Passed : Bytes → List FileMetaData → ℕ → Type 0
Passed key [] ptr = Unit {0}
Passed key (f ∷ files) zero = Unit {0}
Passed key (f ∷ files) (suc ptr) = (above key f ≡ true) × Passed key files ptr

Passed-zero : (key : Bytes) (files : List FileMetaData) → Passed key files 0
unfolding Passed
Passed-zero key [] = tt
Passed-zero key (f ∷ files) = tt

is_above_later :
    (key later : Bytes) (f : FileMetaData)
    → compare key later ≢ positive
    → above key f ≡ true
    → above later f ≡ true
is_above_later key later f le h =
    let largest : Bytes = extract_user_key f.largest in
    let over : compare key largest ≡ positive = positive_is (compare key largest) h in
    let under : compare largest key ≡ negative = sides_flip key largest over in
    let under_later : compare largest later ≡ negative = lt_le_trans largest key later under le in
    elim (sides largest later) [
      | inl (s, t) ↦ ap is_positive t
      | inr (inl (s, t)) ↦ cc
      | inr (inr (s, t)) ↦ cc
    ]
  where
    sides_flip : (a b : Bytes) → compare a b ≡ positive → compare b a ≡ negative
    sides_flip a b e = elim (sides a b) [
      | inl (s, t) ↦ cc
      | inr (inl (s, t)) ↦ cc
      | inr (inr (s, t)) ↦ t
    ]

Passed-later :
    (key later : Bytes) (files : List FileMetaData) (ptr : ℕ)
    → compare key later ≢ positive
    → Passed key files ptr
    → Passed later files ptr
unfolding Passed
Passed-later key later [] ptr le h = tt
Passed-later key later (f ∷ files) zero le h = tt
Passed-later key later (f ∷ files) (suc ptr) le (h, more) =
    (is_above_later key later f le h, Passed-later key later files ptr le more)

not_reached :
    (key : Bytes) (f : FileMetaData) (files : List FileMetaData)
    → All (λ g. compare (low f) (low g) ≢ positive) files
    → reaches bytewise_comparator key f ≡ false
    → any_covers key files ≡ false
unfolding any_covers
not_reached key f [] rise h = refl
not_reached key f (g ∷ files) (le, rise) h =
    let under : compare key (low f) ≡ negative = negative_is (compare key (low f)) (ground arith) in
    let here : compare key (low g) ≡ negative = lt_le_trans key (low f) (low g) under le in
    let later = not_reached key f files rise h in ground arith

-- What the inner loop gives at a level, from where the pointer stands.
abbrev Advanced : Bytes → List FileMetaData → (base : ℕ) → Bool × ℕ → Type 0
Advanced key files base found =
    (ptr : ℕ) × (found.1 ≡ base + ptr) × Passed key files ptr × (found.0 ≡ any_covers key files)

advance_lem :
    (key : Bytes) (files : List FileMetaData) (ptr base : ℕ)
    → StartsRise files
    → Passed key files ptr
    → Advanced key files base (advance bytewise_comparator key (drop ptr files) (base + ptr))
unfolding advance any_covers StartsRise Passed
advance_lem key [] zero base rise h = (0, refl, tt, refl)
advance_lem key [] (suc ptr) base rise h = (suc ptr, refl, tt, refl)
advance_lem key (f ∷ files) zero base (here, rise) h = elim (Bool-cases (above key f)) [
  | inl over ↦
      let (ptr, at, passed, is) = advance_lem key files 0 (suc base) rise (Passed-zero key files) in
      (suc ptr, ground (arith, at), (over, passed), ground (arith, is))
  | inr within ↦ elim (Bool-cases (reaches bytewise_comparator key f)) [
    | inl reached ↦ (0, ground arith, tt, ground arith)
    | inr short ↦
        let none_later = not_reached key f files here short in (0, ground arith, tt, ground arith)
  ]
]
advance_lem key (f ∷ files) (suc ptr) base (here, rise) (h, more) =
    let (ptr', at, passed, is) = advance_lem key files ptr (suc base) rise more in
    let same_place : base + suc ptr ≡ suc base + ptr = omega arith in
    (
      suc ptr',
      ground (arith, ap (advance bytewise_comparator key (drop ptr files)) same_place),
      (h, passed),
      ground (arith, ap (advance bytewise_comparator key (drop ptr files)) same_place),
    )

level_lem :
    (key : Bytes) (files : List FileMetaData) (ptr : ℕ)
    → StartsRise files
    → Passed key files ptr
    → ((advance bytewise_comparator key (drop ptr files) ptr).0 ≡ any_covers key files)
      × Passed key files (advance bytewise_comparator key (drop ptr files) ptr).1
level_lem key files ptr rise h =
    let (ptr', at, passed, is) = advance_lem key files ptr 0 rise h in
    let start : 0 + ptr ≡ ptr = omega arith in
    let at' : (advance bytewise_comparator key (drop ptr files) ptr).1 ≡ ptr' =
      subst (λ (n : ℕ). (advance bytewise_comparator key (drop ptr files) n).1 ≡ ptr') start
        (at ∙ (omega arith)) in
    (
      subst
          (λ (n : ℕ). (advance bytewise_comparator key (drop ptr files) n).0 ≡ any_covers key files)
          start is,
      subst (Passed key files) (sym at') passed,
    )

-- At each level, the files in front of the pointer end below the key.
abbrev Follows : Bytes → List (List FileMetaData) → List ℕ → Type 0
Follows key levels ptrs = (level : ℕ) → Passed key (files_of levels level) (get_or ptrs level 0)

set_cases :
    (ptrs : List ℕ) (i v : ℕ) → (get_or (set ptrs i v) i 0 ≡ v) ⊎ (get_or (set ptrs i v) i 0 ≡ 0)
set_cases [] i v = inr refl
set_cases (p ∷ ptrs) zero v = inl refl
set_cases (p ∷ ptrs) (suc i) v = set_cases ptrs i v

Follows-set :
    (key : Bytes) (levels : List (List FileMetaData)) (ptrs : List ℕ) (level v : ℕ)
    → Follows key levels ptrs
    → Passed key (files_of levels level) v
    → Follows key levels (set ptrs level v)
Follows-set key levels ptrs level v all passed other = elim (Bool-cases (level == other)) [
  | inl same ↦
      let is : level ≡ other = (==_iff level other).0 same in
      subst (λ (l : ℕ). Passed key (files_of levels l) (get_or (set ptrs level v) l 0)) is
        (elim (set_cases ptrs level v) [
          | inl e ↦ rw e passed
          | inr e ↦ rw e (Passed-zero key (files_of levels level))
        ])
  | inr differ ↦
      rw (get_or-set_other ptrs level other v 0 (λ e. cc (differ, (==_iff level other).1 e)))
        (all other)
]

-- The answer of one level, and of the levels behind it.
both :
    (b covered : Bool) (key : Bytes) (levels : List (List FileMetaData)) (ptrs : List ℕ)
    (rest : Bool × List ℕ) (none_later : Bool)
    → b ≡ covered
    → rest.0 ≡ none_later
    → Follows key levels ptrs
    → Follows key levels rest.1
    → ((if b then (false, ptrs) else rest).0 ≡ not covered && none_later)
      × Follows key levels (if b then (false, ptrs) else rest).1
both true covered key levels ptrs rest none_later is later all all' = (rw (← is) refl, all)
both false covered key levels ptrs rest none_later is later all all' = (rw (← is) later, all')

base_level_loop_lem :
    (left level : ℕ) (key : Bytes) (levels : List (List FileMetaData)) (ptrs : List ℕ)
    → ((l : ℕ) → StartsRise (files_of levels l))
    → Follows key levels ptrs
    → ((base_level_loop bytewise_comparator left level key levels ptrs).0
        ≡ none_from levels left level key)
      × Follows key levels (base_level_loop bytewise_comparator left level key levels ptrs).1
unfolding base_level_loop none_from
base_level_loop_lem zero level key levels ptrs rise all = (refl, all)
base_level_loop_lem (suc left) level key levels ptrs rise all =
    let ptr : ℕ = get_or ptrs level 0 in
    let found : Bool × ℕ = advance bytewise_comparator key (drop ptr (files_of levels level)) ptr in
    let (is, passed) = level_lem key (files_of levels level) ptr (rise level) (all level) in
    let all' : Follows key levels (set ptrs level found.1) =
      Follows-set key levels ptrs level found.1 all passed in
    let (answer, rest) =
      base_level_loop_lem left (level + 1) key levels (set ptrs level found.1) rise all' in
    both found.0 (any_covers key (files_of levels level)) key levels (set ptrs level found.1)
      (base_level_loop bytewise_comparator left (level + 1) key levels (set ptrs level found.1))
      (none_from levels left (level + 1) key) is answer all' rest

-- Asked for one key after another.
unfoldable pub answers : List (List FileMetaData) → List Bytes → Compaction → List Bool
answers levels [] c = []
answers levels (key ∷ keys) c =
    let done = is_base_level_for_key bytewise_comparator levels key c in
    done.0 ∷ answers levels keys done.1

-- No key is above the one that follows it.
unfoldable pub KeysRise : List Bytes → Type 0
KeysRise [] = Unit {0}
KeysRise (key ∷ []) = Unit {0}
KeysRise (key ∷ next ∷ keys) = (compare key next ≢ positive) × KeysRise (next ∷ keys)

-- No file of the levels behind the next one covers the key.
abbrev pub is_base : List (List FileMetaData) → ℕ → Bytes → Bool
is_base levels level = none_from levels (num_levels - (level + 2)) (level + 2)

answers_follow :
    (levels : List (List FileMetaData)) (key : Bytes) (keys : List Bytes) (c : Compaction)
    → ((l : ℕ) → StartsRise (files_of levels l))
    → KeysRise (key ∷ keys)
    → Follows key levels c.level_ptrs
    → answers levels (key ∷ keys) c ≡ map (is_base levels c.level) (key ∷ keys)
unfolding answers KeysRise is_base_level_for_key
answers_follow levels key [] c rise tt all =
    let (answer, rest) =
      base_level_loop_lem (num_levels - (c.level + 2)) (c.level + 2) key levels c.level_ptrs rise
        all in
    ap (λ (b : Bool). b ∷ []) answer
answers_follow levels key (next ∷ keys) c rise (le, keys_rise) all =
    let (answer, rest) =
      base_level_loop_lem (num_levels - (c.level + 2)) (c.level + 2) key levels c.level_ptrs rise
        all in
    let c' : Compaction = (is_base_level_for_key bytewise_comparator levels key c).1 in
    let more =
      answers_follow levels next keys c' rise keys_rise
        (λ l. Passed-later key next (files_of levels l) (get_or c'.level_ptrs l 0) le (rest l)) in
    cc (answer, more)

-- Asked for rising keys from the start of a compaction on, IsBaseLevelForKey answers for each of them
-- whether no file of the levels behind the output level covers the key, when the files of each level
-- are in the order of their smallest user keys.
pub answers-is_base :
    (levels : List (List FileMetaData)) (keys : List Bytes) (c : Compaction)
    → ((l : ℕ) → StartsRise (files_of levels l))
    → KeysRise keys
    → c.level_ptrs ≡ replicate num_levels 0
    → answers levels keys c ≡ map (is_base levels c.level) keys
answers-is_base levels [] c rise keys_rise fresh = unfold answers in refl
answers-is_base levels (key ∷ keys) c rise keys_rise fresh =
    answers_follow levels key keys c rise keys_rise
      (λ l. rw (fresh, get_or-replicate num_levels l) (Passed-zero key (files_of levels l)))
  where
    get_or-replicate : (n i : ℕ) → get_or (replicate {A = ℕ} n 0) i 0 ≡ 0
    get_or-replicate zero i = refl
    get_or-replicate (suc n) zero = refl
    get_or-replicate (suc n) (suc i) = get_or-replicate n i
