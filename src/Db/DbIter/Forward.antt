-- ===== src/Db/DbIter/Forward.antt =====
-- A walk of `DBIter` forwards, over any internal iterator that keeps its promises.
use rally_db.Prelude.{
  ℕ, zero, suc, ◌+◌, ◌≤◌, ◌<◌, List, [], ◌∷◌, ◌≡◌, refl, sym, ap, subst, ◌∙◌, ◌⊎◌, inl, inr, Bool,
  true, false, Option, none, some, arith, leb, if◌then◌else◌, length, map, All, Bool-cases, ◌>>=◌,
}
use rally_db.Util.Coding.{Bytes}
use rally_db.Util.Comparator.{Sign, Comparator}
use rally_db.Db.Format.{
  ValueType, deletion, value, max_sequence_number, ParsedInternalKey, append_internal_key,
  extract_user_key,
}
use rally_db.Db.Format.Order.{packed, user_part}
use rally_db.Db.Format.Parse.{parse-append_internal_key}
use rally_db.Table.Iterator.{Iterator, Entry, IsForward}
use rally_db.Db.DbIter.{
  forward, DbIter, current_key, current_value, parse_key, inspect_next, find_next_user_entry,
  advance, leave_current, next, show_next,
}
use rally_db.Db.DbIter.View.{Versioned, stored, Fits, skip_of, hides, view}

Type-cases : (t : ValueType) → (t ≡ deletion) ⊎ (t ≡ value)
Type-cases deletion = inl refl
Type-cases value = inr refl

module _ {S R : Type 0} (it : Iterator S) (user : Comparator) (sample : Bytes → ℕ → R → R)
    (snapshot bound : ℕ) where
  -- The loop of a client: `for (...; iter->Valid(); iter->Next())`, which collects what is shown.
  unfoldable pub collect : ℕ → DbIter S R → Option (List Entry)
  collect zero d = none
  collect (suc fuel) d = elim d.valid [
    | false ↦ some []
    | true ↦ next it user sample snapshot bound d >>= λ d'.
        collect fuel d' >>= λ out. some ((current_key it d, current_value it d) ∷ out)
  ]

module _ {S R : Type 0} (it : Iterator S) (user : Comparator) (sample : Bytes → ℕ → R → R)
    (snapshot : ℕ) (order : Bytes → Bytes → Sign) (Over : S → List Entry → Type 0)
    (At : S → List Entry → List Entry → Type 0) (law : IsForward it order Over At)
    (all : List Versioned) (bound : ℕ) where
  -- `d` shows the first of `out`, and a walk from there shows the others.
  abbrev pub Stands : DbIter S R → List Entry → Type 0
  Stands d [] = (d.valid ≡ false) × Over d.iter (map stored all)
  Stands d ((u, v) ∷ out) =
      (d.valid ≡ true)
      × (d.direction ≡ forward)
      × (current_key it d ≡ u)
      × (current_value it d ≡ v)
      × (e : Versioned) × (es : List Versioned) × At d.iter (map stored all) (map stored (e ∷ es))
      × (All Fits (e ∷ es) × (length (e ∷ es) ≤ bound))
      × (e.0.user_key ≡ u)
      × (view user snapshot (some u) es ≡ out)

  abbrev sampled : DbIter S R → ParsedInternalKey → Bytes → DbIter S R
  sampled d k v = record d { sampler = sample (packed k) (length (packed k) + length v) d.sampler }

  -- The cases of `FindNextUserEntry` for an entry.
  abbrev verdict : Bool → ParsedInternalKey → DbIter S R → DbIter S R ⊎ (Bool × DbIter S R)
  verdict skipping k d =
      if leb k.sequence snapshot
      then (elim k.type [
        | deletion ↦ inr (true, record d { saved_key = k.user_key })
        | value ↦
            if hides user snapshot (skip_of skipping d.saved_key) k.user_key
            then inr (skipping, d)
            else inl (record d { valid = true; saved_key = [] })
      ])
      else inr (skipping, d)

  parse_key_lem :
      (d : DbIter S R) (k : ParsedInternalKey) (v : Bytes)
      → Fits (k, v)
      → it.key d.iter ≡ packed k
      → it.value d.iter ≡ v
      → parse_key it user sample snapshot d ≡ (some k, sampled d k v)
  unfolding parse_key
  parse_key_lem d k v fits key val = ground (arith, parse-append_internal_key k fits)

  inspect_lem :
      (skipping : Bool) (d : DbIter S R) (k : ParsedInternalKey) (v : Bytes)
      → Fits (k, v)
      → it.key d.iter ≡ packed k
      → it.value d.iter ≡ v
      → inspect_next it user sample snapshot skipping d ≡ verdict skipping k (sampled d k v)
  unfolding inspect_next
  inspect_lem false d k v fits key val = ground (arith, parse_key_lem d k v fits key val)
  inspect_lem true d k v fits key val = ground (arith, parse_key_lem d k v fits key val)

  -- The next round, if there is an entry behind.
  advance_lem :
      (more : Bool → DbIter S R → Option (DbIter S R)) (skips : Bool) (d : DbIter S R)
      (es : List Versioned)
      → ((d' : DbIter S R) (e : Versioned) (rest : List Versioned)
          → es ≡ e ∷ rest
          → d'.saved_key ≡ d.saved_key
          → d'.direction ≡ forward
          → At d'.iter (map stored all) (map stored (e ∷ rest))
          → (r : DbIter S R) × (more skips d' ≡ some r)
            × Stands r (view user snapshot (skip_of skips d.saved_key) (e ∷ rest)))
      → d.direction ≡ forward
      → At (it.next d.iter) (map stored all) (map stored es)
      → (r : DbIter S R) × (advance it user sample snapshot more skips d ≡ some r)
        × Stands r (view user snapshot (skip_of skips d.saved_key) es)
  unfolding advance view
  advance_lem more skips d [] ih way here = (
    record d { iter = it.next d.iter; saved_key = []; valid = false },
    ground (arith, law.at_end (it.next d.iter) (map stored all) here),
    (refl, law.still_over _ _ _ here),
  )
  advance_lem more skips d (e ∷ rest) ih way here =
      let (r, done, stands) = ih (record d { iter = it.next d.iter }) e rest refl refl way here in
      (
        r,
        ground (
          arith,
          law.at_entry (it.next d.iter) (map stored all) (stored e) (map stored rest) here,
        ),
        stands,
      )

  -- What is done with an entry is what the view does with it.
  verdict_cases :
      (skipping : Bool) (d : DbIter S R) (k : ParsedInternalKey) (v : Bytes) (es : List Versioned)
      → let shown = view user snapshot (skip_of skipping d.saved_key) ((k, v) ∷ es) in
        ((verdict skipping k d ≡ inl (record d { valid = true; saved_key = [] }))
          × (shown ≡ (k.user_key, v) ∷ view user snapshot (some k.user_key) es))
        ⊎ ((skips : Bool) × (d' : DbIter S R) × (verdict skipping k d ≡ inr (skips, d'))
            × (d'.iter ≡ d.iter)
            × (d'.direction ≡ d.direction)
            × (shown ≡ view user snapshot (skip_of skips d'.saved_key) es))
  unfolding view
  verdict_cases skipping d k v es = elim (Bool-cases (leb k.sequence snapshot)) [
    | inr unseen ↦ inr (skipping, d, ground arith, refl, refl, ground arith)
    | inl seen ↦ elim (Type-cases k.type) [
      | inl gone ↦
          inr (true, record d { saved_key = k.user_key }, ground arith, refl, refl, ground arith)
      | inr here ↦
          elim (Bool-cases (hides user snapshot (skip_of skipping d.saved_key) k.user_key)) [
            | inl hidden ↦ inr (skipping, d, ground arith, refl, refl, ground arith)
            | inr shown ↦ inl (ground arith, ground arith)
          ]
    ]
  ]

  shown_key :
      (d : DbIter S R) (k : ParsedInternalKey)
      → k.sequence ≤ max_sequence_number
      → d.direction ≡ forward
      → it.key d.iter ≡ packed k
      → current_key it d ≡ k.user_key
  unfolding current_key append_internal_key
  shown_key d k fits way key = ground (arith, user_part k.user_key k.sequence k.type fits)

  shown_value :
      (d : DbIter S R) (v : Bytes)
      → d.direction ≡ forward
      → it.value d.iter ≡ v
      → current_value it d ≡ v
  unfolding current_value
  shown_value d v way val = ground arith

  find_next_lem :
      (fuel : ℕ) (skipping : Bool) (d : DbIter S R) (e : Versioned) (es : List Versioned)
      → length (e ∷ es) ≤ fuel
      → length (e ∷ es) ≤ bound
      → d.direction ≡ forward
      → At d.iter (map stored all) (map stored (e ∷ es))
      → All Fits (e ∷ es)
      → (r : DbIter S R) × (find_next_user_entry it user sample snapshot fuel skipping d ≡ some r)
        × Stands r (view user snapshot (skip_of skipping d.saved_key) (e ∷ es))
  unfolding find_next_user_entry
  find_next_lem zero skipping d e es enough small way here fits = absurd (omega arith)
  find_next_lem (suc fuel) skipping d e es enough small way here fits =
      let (valid, key, val, behind) =
        law.at_entry d.iter (map stored all) (stored e) (map stored es) here in
      let seen = inspect_lem skipping d e.0 e.1 fits.0 key val in
      let d' = sampled d e.0 e.1 in
      elim (verdict_cases skipping d' e.0 e.1 es) [
        | inl (stop, shown) ↦
            let r = record d' { valid = true; saved_key = [] } in
            (
              r,
              ground arith,
              rw shown (
                refl,
                way,
                shown_key r e.0 fits.0 way key,
                shown_value r e.1 way val,
                e,
                es,
                here,
                (fits, small),
                refl,
                refl,
              ),
            )
        | inr (skips, d'', go, same, turn, shown) ↦
            let (r, done, stands) =
              advance_lem (find_next_user_entry it user sample snapshot fuel) skips d'' es
                (λ f g rest cut saved w at. rw (← saved) (
                  find_next_lem fuel skips f g rest (omega (arith, ap length cut))
                    (omega (arith, ap length cut)) w at (subst (All Fits) cut fits.1)))
                (turn ∙ way)
                (subst (λ (x : S). At (it.next x) (map stored all) (map stored es)) (sym same)
                  behind) in
            (r, ground arith, rw shown stands)
      ]

  pub show_next_lem :
      (d : DbIter S R) (es : List Versioned)
      → length es ≤ bound
      → d.direction ≡ forward
      → At d.iter (map stored all) (map stored es)
      → All Fits es
      → (r : DbIter S R) × (show_next it user sample snapshot bound d ≡ some r)
        × Stands r (view user snapshot none es)
  unfolding show_next view
  show_next_lem d [] enough way here fits = (
    record d { valid = false },
    ground (arith, law.at_end d.iter (map stored all) here),
    (refl, law.still_over _ _ _ here),
  )
  show_next_lem d (e ∷ es) enough way here fits =
      let (r, done, stands) = find_next_lem bound false d e es enough enough way here fits in
      (
        r,
        ground (arith, law.at_entry d.iter (map stored all) (stored e) (map stored es) here),
        stands,
      )

  next_lem :
      (d : DbIter S R) (u v : Bytes) (out : List Entry)
      → Stands d ((u, v) ∷ out)
      → (r : DbIter S R) × (next it user sample snapshot bound d ≡ some r) × Stands r out
  unfolding next leave_current view current_key
  next_lem d u v out (valid, way, key, val, e, [], here, fits, same, shown) =
      let end = (law.at_entry d.iter (map stored all) (stored e) [] here).3 in
      let r = record d { valid = false; saved_key = []; iter = it.next d.iter } in
      (
        r,
        ground (arith, law.at_end (it.next d.iter) (map stored all) end),
        rw (← shown) (refl, law.still_over _ _ _ end),
      )
  next_lem d u v out (valid, way, key, val, e, f ∷ es, here, (fits, small), same, shown) =
      let behind = (law.at_entry d.iter (map stored all) (stored e) (map stored (f ∷ es)) here).3 in
      let saved : extract_user_key (it.key d.iter) ≡ u = ground arith in
      let d' = record d { saved_key = u; iter = it.next d.iter } in
      let (r, done, stands) =
        find_next_lem bound true d' f es (omega arith) (omega arith) way behind fits.1 in
      (
        r,
        ground (
          arith,
          law.at_entry (it.next d.iter) (map stored all) (stored f) (map stored es) behind,
        ),
        rw (← shown) stands,
      )

  pub collect_lem :
      (fuel : ℕ) (out : List Entry) (d : DbIter S R)
      → length out < fuel
      → Stands d out
      → collect it user sample snapshot bound fuel d ≡ some out
  unfolding collect
  collect_lem zero out d enough stands = absurd (omega arith)
  collect_lem (suc fuel) [] d enough stands = ground arith
  collect_lem (suc fuel) ((u, v) ∷ out) d enough stands =
      let (r, done, later) = next_lem d u v out stands in
      ground (arith, collect_lem fuel out r (omega arith) later)
