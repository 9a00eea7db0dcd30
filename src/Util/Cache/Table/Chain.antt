-- ===== src/Util/Cache/Table/Chain.antt =====
-- The buckets of `HandleTable`: looking up after writing and unlinking.
use rally_db.Prelude.{
  ℕ, [], ◌∷◌, ◌≡◌, refl, sym, ap, subst, ◌∙◌, true, ◌&&◌, none, some, arith, ◌==◌, if◌then◌else◌,
  Bool-cases, Bool-both, Bool-each, inl, inr, All,
}
use rally_db.Prelude.Bytes.{same, eq_of_same, same_refl}
use rally_db.Util.Coding.{Bytes}
use rally_db.Util.Cache.Table.{LruHandle, Chain, matches, find, put_at, cut_at}

pub matches_self : (h : LruHandle) → matches h.key h.hash h ≡ true
matches_self h = ground (arith, same_refl h.key)

pub matches_eq :
    (key : Bytes) (hash : ℕ) (h : LruHandle)
    → matches key hash h ≡ true
    → (h.hash ≡ hash) × (h.key ≡ key)
matches_eq key hash h m = (ground arith, sym (eq_of_same key h.key (ground arith)))

-- Handles with one key match alike.
pub matches_same :
    (key : Bytes) (hash : ℕ) (a b : LruHandle)
    → matches a.key a.hash b ≡ true
    → matches key hash b ≡ matches key hash a
matches_same key hash a b m = let (hashes, keys) = matches_eq a.key a.hash b m in rw (hashes, keys)

pub find_same :
    (key : Bytes) (hash : ℕ) (h : LruHandle) (chain : Chain)
    → matches key hash h ≡ true
    → find key hash chain ≡ find h.key h.hash chain
find_same key hash h chain m = let (hashes, keys) = matches_eq key hash h m in rw (hashes, keys)

-- No key occurs twice.
abbrev pub IsDistinct : Chain → Type 0
IsDistinct [] = Unit {0}
IsDistinct (h ∷ chain) = (find h.key h.hash chain ≡ none) × IsDistinct chain

pub find-put_at :
    (key : Bytes) (hash : ℕ) (h : LruHandle) (chain : Chain)
    → find key hash (put_at h chain) ≡ (if matches key hash h then some h else find key hash chain)
unfolding find put_at
find-put_at key hash h [] = refl
find-put_at key hash h (x ∷ chain) = elim (Bool-cases (matches h.key h.hash x)) [
  | inl old ↦ ground (arith, matches_same key hash h x old)
  | inr other ↦ elim (Bool-cases (matches key hash x)) [
    | inl mine ↦ elim (Bool-cases (matches key hash h)) [
      | inl both ↦ absurd (ground (arith, matches_same_back key hash h x both mine))
      | inr not_h ↦ ground (arith, find-put_at key hash h chain)
    ]
    | inr not_mine ↦ ground (arith, find-put_at key hash h chain)
  ]
]
  where
    matches_same_back :
        (key : Bytes) (hash : ℕ) (h x : LruHandle)
        → matches key hash h ≡ true
        → matches key hash x ≡ true
        → matches h.key h.hash x ≡ true
    matches_same_back key hash h x a b = let (p, q) = matches_eq key hash h a in rw (p, q) b

-- What is found matches.
pub find-matches :
    (key : Bytes) (hash : ℕ) (h : LruHandle) (chain : Chain)
    → find key hash chain ≡ some h
    → matches key hash h ≡ true
unfolding find
find-matches key hash h [] e = cc
find-matches key hash h (x ∷ chain) e = elim (Bool-cases (matches key hash x)) [
  | inl mine ↦
      let is : x ≡ h = ground arith in subst (λ (y : LruHandle). matches key hash y ≡ true) is mine
  | inr other ↦ find-matches key hash h chain (ground arith)
]

-- Two handles that one key finds have the same key.
matches_both :
    (key key' : Bytes) (hash hash' : ℕ) (h x : LruHandle)
    → matches key hash x ≡ true
    → matches key hash h ≡ true
    → matches key' hash' h ≡ true
    → matches key' hash' x ≡ true
matches_both key key' hash hash' h x mine also found =
    let (p, q) = matches_eq key hash x mine in
    let (r, t) = matches_eq key hash h also in
    let same_hash : x.hash ≡ h.hash = p ∙ sym r in
    let same_key : x.key ≡ h.key = q ∙ sym t in
    subst (λ (n : ℕ). (n == hash' && same key' x.key) ≡ true) (sym same_hash)
      (subst (λ (k : Bytes). (h.hash == hash' && same key' k) ≡ true) (sym same_key) found)

pub find-cut_at :
    (key key' : Bytes) (hash hash' : ℕ) (h : LruHandle) (chain : Chain)
    → IsDistinct chain
    → find key' hash' chain ≡ some h
    → find key hash (cut_at key' hash' chain)
      ≡ (if matches key hash h then none else find key hash chain)
unfolding find cut_at
find-cut_at key key' hash hash' h [] distinct found = cc
find-cut_at key key' hash hash' h (x ∷ chain) (apart, distinct) found =
    elim (Bool-cases (matches key' hash' x)) [
      | inl mine ↦
          let is : x ≡ h = ground arith in
          let like : matches key hash x ≡ matches key hash h = ap (matches key hash) is in
          elim (Bool-cases (matches key hash x)) [
            | inl this ↦ ground (arith, find_same key hash x chain this)
            | inr that ↦ ground arith
          ]
      | inr other ↦
          let later : find key' hash' chain ≡ some h = ground arith in
          elim (Bool-cases (matches key hash x)) [
            | inr that ↦ ground (arith, find-cut_at key key' hash hash' h chain distinct later)
            | inl this ↦ elim (Bool-cases (matches key hash h)) [
              | inr not_h ↦ ground (arith, find-cut_at key key' hash hash' h chain distinct later)
              | inl also ↦
                  let wrong =
                    matches_both key key' hash hash' h x this also
                      (find-matches key' hash' h chain later) in
                  absurd (ground arith)
            ]
          ]
    ]

pub matches_sym : (x h : LruHandle) → matches x.key x.hash h ≡ true → matches h.key h.hash x ≡ true
matches_sym x h m = let (p, q) = matches_eq x.key x.hash h m in rw (p, q) (matches_self x)

pub put_at-IsDistinct :
    (h : LruHandle) (chain : Chain) → IsDistinct chain → IsDistinct (put_at h chain)
unfolding put_at
put_at-IsDistinct h [] distinct = unfold find in (refl, tt)
put_at-IsDistinct h (x ∷ chain) (apart, distinct) =
    Bool-each (matches h.key h.hash x)
      (λ b. IsDistinct (if b then h ∷ chain else x ∷ put_at h chain))
      (λ old. (find_same h.key h.hash x chain old ∙ apart, distinct))
      (λ other. (
        find-put_at x.key x.hash h chain ∙ ground (arith, matches_sym x h),
        put_at-IsDistinct h chain distinct,
      ))

cut_at-none :
    (key key' : Bytes) (hash hash' : ℕ) (chain : Chain)
    → find key hash chain ≡ none
    → find key hash (cut_at key' hash' chain) ≡ none
unfolding find cut_at
cut_at-none key key' hash hash' [] e = refl
cut_at-none key key' hash hash' (x ∷ chain) e =
    ground (arith, cut_at-none key key' hash hash' chain)

pub cut_at-IsDistinct :
    (key : Bytes) (hash : ℕ) (chain : Chain) → IsDistinct chain → IsDistinct (cut_at key hash chain)
unfolding cut_at
cut_at-IsDistinct key hash [] distinct = tt
cut_at-IsDistinct key hash (x ∷ chain) (apart, distinct) =
    Bool-both (matches key hash x)
      (λ b. IsDistinct (if b then chain else x ∷ cut_at key hash chain)) distinct
      (cut_at-none x.key key x.hash hash chain apart, cut_at-IsDistinct key hash chain distinct)

pub All-put_at :
    (P : LruHandle → Type 0) (h : LruHandle) (chain : Chain)
    → All P chain
    → P h
    → All P (put_at h chain)
unfolding put_at
All-put_at P h [] all p = (p, tt)
All-put_at P h (x ∷ chain) (q, all) p =
    Bool-both (matches h.key h.hash x) (λ b. All P (if b then h ∷ chain else x ∷ put_at h chain))
      (p, all) (q, All-put_at P h chain all p)

pub All-cut_at :
    (P : LruHandle → Type 0) (key : Bytes) (hash : ℕ) (chain : Chain)
    → All P chain
    → All P (cut_at key hash chain)
unfolding cut_at
All-cut_at P key hash [] all = tt
All-cut_at P key hash (x ∷ chain) (q, all) =
    Bool-both (matches key hash x) (λ b. All P (if b then chain else x ∷ cut_at key hash chain)) all
      (q, All-cut_at P key hash chain all)
