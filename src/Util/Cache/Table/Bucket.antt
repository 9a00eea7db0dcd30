-- ===== src/Util/Cache/Table/Bucket.antt =====
-- A write to one bucket of `HandleTable`, seen through the whole table.
use rally_db.Prelude.{
  ℕ, ◌^◌, ◌<◌, List, [], ◌≡◌, ◌≢◌, sym, ap, subst, ◌∙◌, Option, arith, ◌==◌, ==_iff, if◌then◌else◌,
  Bool-cases, inl, inr, All, length, get_or, set, length-set, get_or-set_self, get_or-set_other,
}
use native.Mathlib.Nat.{mod-lt, one-le-pow}
use rally_db.Prelude.Bits.{and_mask}
use rally_db.Util.Coding.{Bytes}
use rally_db.Util.Cache.Table.{LruHandle, Chain, matches, find, slot, chain_of}
use rally_db.Util.Cache.Table.Chain.{matches_eq, IsDistinct}

-- The length is a power of two; a handle stands in the bucket of its hash, and no key occurs twice.
pub record IsPlaced (n : ℕ) (list : List Chain) : Type 0 where
  pub width : length list ≡ n
  pub power : (k : ℕ) × (n ≡ 2 ^ k)
  pub placed : (i : ℕ) → All (λ h. slot h.hash n ≡ i) (get_or list i [])
  pub distinct : (i : ℕ) → IsDistinct (get_or list i [])

pub slot-lt : (hash n k : ℕ) → n ≡ 2 ^ k → slot hash n < n
unfolding slot
slot-lt hash n k e =
    rw e (omega (arith, and_mask k hash, mod-lt hash (one-le-pow k 2 (omega arith))))

-- What the table `list` holds for a key.
abbrev pub held : ℕ → List Chain → Bytes → ℕ → Option LruHandle
held n list key hash = find key hash (chain_of n list hash)

module _ (n : ℕ) (list : List Chain) (table : IsPlaced n list) (h : LruHandle) (chain : Chain) where
  inside : slot h.hash n < length list
  inside = omega (arith, table.width, slot-lt h.hash n table.power.0 table.power.1)

  abbrev written : List Chain
  written = set list (slot h.hash n) chain

  -- What holds of the new chain in its bucket, and of the old ones in theirs.
  at_each :
      (i : ℕ) (P : Chain → Type 0)
      → (slot h.hash n ≡ i → P chain)
      → P (get_or list i [])
      → P (get_or written i [])
  at_each i P f old = elim (Bool-cases (slot h.hash n == i)) [
    | inl here ↦
        let e : slot h.hash n ≡ i = (==_iff (slot h.hash n) i).0 here in
        subst P
          (sym (
            ap (λ (j : ℕ). get_or written j []) (sym e)
            ∙ get_or-set_self list (slot h.hash n) chain [] inside))
          (f e)
    | inr there ↦
        let other : slot h.hash n ≢ i = λ e. cc (there, (==_iff (slot h.hash n) i).1 e) in
        subst P (sym (get_or-set_other list (slot h.hash n) i chain [] other)) old
  ]

  pub set-IsPlaced :
      All (λ x. slot x.hash n ≡ slot h.hash n) chain → IsDistinct chain → IsPlaced n written
  set-IsPlaced here apart = record {
    width = length-set list (slot h.hash n) chain ∙ table.width;
    power = table.power;
    placed = λ i.
        at_each i (All (λ x. slot x.hash n ≡ i))
          (λ e. subst (λ (j : ℕ). All (λ x. slot x.hash n ≡ j) chain) e here) (table.placed i);
    distinct = λ i. at_each i IsDistinct (λ _. apart) (table.distinct i);
  }

  pub held-set :
      (key : Bytes) (hash : ℕ) (v : Option LruHandle)
      → find key hash chain
        ≡ (if matches key hash h then v else find key hash (chain_of n list h.hash))
      → held n written key hash ≡ (if matches key hash h then v else held n list key hash)
  held-set key hash v e = elim (Bool-cases (slot h.hash n == slot hash n)) [
    | inl here ↦
        let same_slot : slot h.hash n ≡ slot hash n =
          (==_iff (slot h.hash n) (slot hash n)).0 here in
        let now : chain_of n written hash ≡ chain =
          ap (λ (j : ℕ). get_or written j []) (sym same_slot)
          ∙ get_or-set_self list (slot h.hash n) chain [] inside in
        let was : chain_of n list h.hash ≡ chain_of n list hash =
          ap (λ (j : ℕ). get_or list j []) same_slot in
        ground arith
    | inr there ↦
        let other : slot h.hash n ≢ slot hash n =
          λ e'. cc (there, (==_iff (slot h.hash n) (slot hash n)).1 e') in
        let now : chain_of n written hash ≡ chain_of n list hash =
          get_or-set_other list (slot h.hash n) (slot hash n) chain [] other in
        elim (Bool-cases (matches key hash h)) [
          | inr apart ↦ ground arith
          | inl mine ↦ absurd (other (ap (λ (x : ℕ). slot x n) (matches_eq key hash h mine).0))
        ]
  ]
