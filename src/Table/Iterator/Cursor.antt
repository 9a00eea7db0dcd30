-- ===== src/Table/Iterator/Cursor.antt =====
-- An iterator over a list of entries, which keeps the promises of include/leveldb/iterator.h: it stands
-- at a position in the list, or is not valid.
use rally_db.Prelude.{
  ℕ, zero, suc, ◌<◌, ◌≤◌, List, [], ◌∷◌, ◌≡◌, refl, ap, true, false, Option, none, some, arith, ltb,
  if◌then◌else◌, length, get_or, drop, Bool-cases, inl, inr, subst, sym, length-drop,
}
use rally_db.Util.Status.{ok}
use rally_db.Util.Coding.{Bytes}
use rally_db.Util.Comparator.{Sign, is_negative}
use rally_db.Table.Iterator.{Iterator, Entry, entries_from, IsForward}

pub record Cursor : Type 0 where
  pub entries : List Entry
  pub position : Option ℕ

-- The position `i`, if there is an entry.
abbrev land : List Entry → ℕ → Option ℕ
land es i = if ltb i (length es) then some i else none

abbrev position_or_end : Cursor → ℕ
position_or_end c = elim c.position [ none ↦ length c.entries | some i ↦ i ]

-- The number of entries below the target.
unfoldable pub skipped : (Bytes → Bytes → Sign) → Bytes → List Entry → ℕ
skipped order target [] = 0
skipped order target (e ∷ es) =
    let rest = skipped order target es in if is_negative (order e.0 target) then suc rest else 0

abbrev pub cursor_iterator : (Bytes → Bytes → Sign) → Iterator Cursor
cursor_iterator order = record {
  valid = λ c. elim c.position [ none ↦ false | some i ↦ true ];
  key = λ c. (get_or c.entries (position_or_end c) ([], [])).0;
  value = λ c. (get_or c.entries (position_or_end c) ([], [])).1;
  status = λ c. ok;
  seek_to_first = λ c. record c { position = land c.entries 0 };
  seek_to_last =
      λ c. record c { position = elim c.entries [ [] ↦ none | e ∷ es ↦ some (length es) ] };
  seek = λ target c. record c { position = land c.entries (skipped order target c.entries) };
  next = λ c. record c {
    position = elim c.position [ none ↦ none | some i ↦ land c.entries (suc i) ];
  };
  prev = λ c. record c {
    position = elim c.position [ none ↦ none | some i ↦ elim i [ zero ↦ none | suc j ↦ some j ] ];
  };
}

abbrev pub Over : Cursor → List Entry → Type 0
Over c all = c.entries ≡ all

abbrev pub Stays : Option ℕ → List Entry → List Entry → Type 0
Stays none all es = es ≡ []
Stays (some i) all es = (i < length all) × (es ≡ drop i all)

abbrev pub At : Cursor → List Entry → List Entry → Type 0
At c all es = (c.entries ≡ all) × Stays c.position all es

drop_at :
    (i : ℕ) (all : List Entry) (e : Entry) (es : List Entry) (d : Entry)
    → e ∷ es ≡ drop i all
    → (get_or all i d ≡ e) × (drop (suc i) all ≡ es) × (i < length all)
drop_at zero [] e es d h = absurd (ground arith)
drop_at zero (x ∷ all) e es d h = ground arith
drop_at (suc i) [] e es d h = absurd (ground arith)
drop_at (suc i) (x ∷ all) e es d h = let (a, b, c) = drop_at i all e es d h in (a, b, omega arith)

drop_end : (i : ℕ) (all : List Entry) → length all ≤ i → drop i all ≡ []
drop_end zero [] h = refl
drop_end zero (x ∷ all) h = absurd (omega arith)
drop_end (suc i) [] h = refl
drop_end (suc i) (x ∷ all) h = drop_end i all (omega arith)

drop-skipped :
    (order : Bytes → Bytes → Sign) (target : Bytes) (es : List Entry)
    → drop (skipped order target es) es ≡ entries_from order target es
unfolding skipped entries_from
drop-skipped order target [] = refl
drop-skipped order target (e ∷ es) = elim (Bool-cases (is_negative (order e.0 target))) [
  | inl low ↦ ground (arith, drop-skipped order target es)
  | inr high ↦ ground arith
]

land-At :
    (c : Cursor) (all : List Entry) (i : ℕ)
    → c.entries ≡ all
    → At (record c { position = land c.entries i }) all (drop i all)
land-At c all i e = (
  e,
  elim (Bool-cases (ltb i (length c.entries))) [
    | inl inside ↦ ground (arith, ap length e)
    | inr beyond ↦ ground (arith, ap length e, drop_end i all)
  ],
)

module _ (order : Bytes → Bytes → Sign) where
  abbrev it : Iterator Cursor
  it = cursor_iterator order

  abbrev at_position : List Entry → Option ℕ → Cursor
  at_position all p = record { entries = all; position = p }

  end_at : (all : List Entry) (p : Option ℕ) → Stays p all [] → it.valid (at_position all p) ≡ false
  end_at all none h = refl
  end_at all (some i) (inside, h) = absurd (omega (arith, ap length h, length-drop i all))

  entry_at :
      (all : List Entry) (e : Entry) (es : List Entry) (p : Option ℕ)
      → Stays p all (e ∷ es)
      → let c = at_position all p in
        (it.valid c ≡ true) × (it.key c ≡ e.0) × (it.value c ≡ e.1) × At (it.next c) all es
  entry_at all e es none h = absurd (ground arith)
  entry_at all e es (some i) (inside, h) =
      let (here, behind, _) = drop_at i all e es ([], []) h in
      (
        refl,
        ap (λ (x : Entry). x.0) here,
        ap (λ (x : Entry). x.1) here,
        rw (← behind) (land-At (at_position all (some i)) all (suc i) refl),
      )

  at_entry_lem :
      (c : Cursor) (all : List Entry) (e : Entry) (es : List Entry)
      → At c all (e ∷ es)
      → (it.valid c ≡ true) × (it.key c ≡ e.0) × (it.value c ≡ e.1) × At (it.next c) all es
  at_entry_lem c all e es (same_list, h) =
      subst
        (λ (x : List Entry).
          let c' = at_position x c.position in
          (it.valid c' ≡ true) × (it.key c' ≡ e.0) × (it.value c' ≡ e.1) × At (it.next c') all es)
        (sym same_list) (entry_at all e es c.position h)

  pub cursor-IsForward : IsForward it order Over At
  unfolding skipped
  cursor-IsForward = record {
    at_end = λ c all h. end_at all c.position h.1;
    at_entry = at_entry_lem;
    at_first = λ c all e. land-At c all 0 e;
    at_target = λ c all target e.
        rw (← e, ← drop-skipped order target c.entries) (land-At c c.entries _ refl);
    still_over = λ c all es h. h.0;
  }
