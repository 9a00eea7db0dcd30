-- ===== src/Db/DbIter.antt =====
-- db/db_iter.cc: the iterator over a snapshot of the database. It walks an iterator over internal keys
-- and shows for each user key the newest value that the snapshot sees.
--
-- The internal iterator is any `Iterator`. `sample key bytes` stands for the sampling of reads, a
-- side effect on the database which no method here reads: it has a state of its own, of any type.
-- A loop over the entries takes fuel, of which the number of entries and one are enough; `none` means
-- that it ran out. `ClearSavedValue` leaves the empty string, whatever the capacity was.
pub mod View
pub mod Forward
pub mod Snapshot
pub mod Shown
pub mod Walk
use rally_db.Prelude.{
  ℕ, zero, suc, ◌+◌, [], ◌⊎◌, inl, inr, Bool, true, false, ◌&&◌, not, Option, none, some, leb,
  if◌then◌else◌, length,
}
use rally_db.Util.Status.{Status, ok, corruption, is_ok}
use rally_db.Util.Coding.{Bytes}
use rally_db.Util.Comparator.{Comparator, is_negative, is_positive}
use rally_db.Db.Format.{
  ValueType, deletion, value, value_type_for_seek, ParsedInternalKey, parse_internal_key,
  append_internal_key, extract_user_key,
}
use rally_db.Table.Iterator.{Iterator}

-- `enum Direction`
pub data Direction : Type 0 where
  forward reverse : Direction

-- `R` is the state of the sampling.
pub record DbIter (S R : Type 0) : Type 0 where
  pub iter : S
  pub status : Status
  pub saved_key : Bytes
  pub saved_value : Bytes
  pub direction : Direction
  pub valid : Bool
  pub sampler : R

module _ {S R : Type 0} where
  abbrev pub new_db_iter : S → R → DbIter S R
  new_db_iter s r = record {
    iter = s;
    status = ok;
    saved_key = [];
    saved_value = [];
    direction = forward;
    valid = false;
    sampler = r;
  }

  -- `Valid`
  abbrev pub is_valid : DbIter S R → Bool
  is_valid d = d.valid

module _ {S R : Type 0} (it : Iterator S) where
  -- `key`
  unfoldable pub current_key : DbIter S R → Bytes
  current_key d = elim d.direction [
    | forward ↦ extract_user_key (it.key d.iter)
    | reverse ↦ d.saved_key
  ]

  -- `value`
  unfoldable pub current_value : DbIter S R → Bytes
  current_value d = elim d.direction [ forward ↦ it.value d.iter | reverse ↦ d.saved_value ]

  -- `status`
  unfoldable pub current_status : DbIter S R → Status
  current_status d = if is_ok d.status then it.status d.iter else d.status

module _ {S R : Type 0} (it : Iterator S) (user : Comparator) (sample : Bytes → ℕ → R → R)
    (snapshot : ℕ) where
  -- `false` is `none`.
  unfoldable pub parse_key : DbIter S R → Option ParsedInternalKey × DbIter S R
  parse_key d =
      let k = it.key d.iter in
      let read = record d { sampler = sample k (length k + length (it.value d.iter)) d.sampler } in
      elim (parse_internal_key k) [
        | none ↦ (none, record read { status = corruption "corrupted internal key in DBIter" })
        | some p ↦ (some p, read)
      ]

  -- The entry of `FindNextUserEntry` that is shown (`inl`), or whether it skips from here on. The
  -- string `*skip` is `saved_key_` at every call.
  unfoldable pub inspect_next : Bool → DbIter S R → DbIter S R ⊎ (Bool × DbIter S R)
  unfolding parse_key
  inspect_next skipping d =
      let d' = (parse_key d).1 in
      elim (parse_key d).0 [
        | none ↦ inr (skipping, d')
        | some k ↦
            if leb k.sequence snapshot
            then (elim k.type [
              | deletion ↦ inr (true, record d' { saved_key = k.user_key })
              | value ↦
                  if skipping && not (is_positive (user.cmp k.user_key d'.saved_key))
                  then inr (skipping, d')
                  else inl (record d' { valid = true; saved_key = [] })
            ])
            else inr (skipping, d')
      ]

  -- `iter_->Next()` and the test of the do-while loop, with the next round for `more`.
  unfoldable pub advance :
      (Bool → DbIter S R → Option (DbIter S R)) → Bool → DbIter S R → Option (DbIter S R)
  advance more skips d =
      let d' = record d { iter = it.next d.iter } in
      elim (it.valid d'.iter) [
        | true ↦ more skips d'
        | false ↦ some (record d' { saved_key = []; valid = false })
      ]

  unfoldable pub find_next_user_entry : ℕ → Bool → DbIter S R → Option (DbIter S R)
  unfolding advance inspect_next
  find_next_user_entry zero skipping d = none
  find_next_user_entry (suc fuel) skipping d = elim (inspect_next skipping d) [
    | inl shown ↦ some shown
    | inr (skips, d') ↦ advance (find_next_user_entry fuel) skips d'
  ]

  -- The end of a walk: `valid_ = false; saved_key_.clear();`
  abbrev stop : DbIter S R → DbIter S R
  stop d = record d { valid = false; saved_key = [] }

  -- The first part of `Next`: the internal iterator leaves the current entry.
  unfoldable pub leave_current : DbIter S R → DbIter S R
  leave_current d = elim d.direction [
    | reverse ↦ record d {
      direction = forward;
      iter = if not (it.valid d.iter) then it.seek_to_first d.iter else it.next d.iter;
    }
    | forward ↦ record d { saved_key = extract_user_key (it.key d.iter); iter = it.next d.iter }
  ]

  -- REQUIRES: Valid()
  unfoldable pub next : ℕ → DbIter S R → Option (DbIter S R)
  unfolding leave_current
  next fuel d =
      let d' = leave_current d in
      if not (it.valid d'.iter) then some (stop d') else find_next_user_entry fuel true d'

  -- The entry of `FindPrevUserEntry`: `inl` at the break, else the new value type.
  unfoldable pub inspect_prev : ValueType → DbIter S R → DbIter S R ⊎ (ValueType × DbIter S R)
  unfolding parse_key
  inspect_prev type d =
      let d' = (parse_key d).1 in
      elim (parse_key d).0 [
        | none ↦ inr (type, d')
        | some k ↦
            if leb k.sequence snapshot
            then (if (elim type [ deletion ↦ false | value ↦ true ])
                  && is_negative (user.cmp k.user_key d'.saved_key)
                then inl d'
                else (elim k.type [
                  | deletion ↦ inr (deletion, record d' { saved_key = []; saved_value = [] })
                  | value ↦ inr (
                    value,
                    record d' {
                      saved_key = extract_user_key (it.key d'.iter);
                      saved_value = it.value d'.iter;
                    },
                  )
                ]))
            else inr (type, d')
      ]

  -- The do-while loop.
  unfoldable pub find_prev_loop : ℕ → ValueType → DbIter S R → Option (ValueType × DbIter S R)
  find_prev_loop zero type d = none
  find_prev_loop (suc fuel) type d = elim (inspect_prev type d) [
    | inl d' ↦ some (type, d')
    | inr (type', d') ↦
        let d'' = record d' { iter = it.prev d'.iter } in
        elim (it.valid d''.iter) [
          | true ↦ find_prev_loop fuel type' d''
          | false ↦ some (type', d'')
        ]
  ]

  -- What follows the loop.
  abbrev end_prev : ValueType × DbIter S R → DbIter S R
  end_prev (deletion, d) = record d {
    valid = false;
    saved_key = [];
    saved_value = [];
    direction = forward;
  }
  end_prev (value, d) = record d { valid = true }

  unfoldable pub find_prev_user_entry : ℕ → DbIter S R → Option (DbIter S R)
  unfolding find_prev_loop
  find_prev_user_entry fuel d =
      let walked = find_prev_loop fuel deletion d in
      if it.valid d.iter
      then (elim walked [ none ↦ none | some r ↦ some (end_prev r) ])
      else some (end_prev (deletion, d))

  -- The loop of `Prev` that leaves the entries of the current key: `false` when it left the first one.
  unfoldable pub scan_back : ℕ → DbIter S R → Option (Bool × DbIter S R)
  scan_back zero d = none
  scan_back (suc fuel) d =
      let d' = record d { iter = it.prev d.iter } in
      elim (it.valid d'.iter) [
        | false ↦ some (false, record d' { valid = false; saved_key = []; saved_value = [] })
        | true ↦ elim (is_negative (user.cmp (extract_user_key (it.key d'.iter)) d'.saved_key)) [
          | true ↦ some (true, record d' { direction = reverse })
          | false ↦ scan_back fuel d'
        ]
      ]

  -- REQUIRES: Valid()
  unfoldable pub prev : ℕ → DbIter S R → Option (DbIter S R)
  unfolding scan_back find_prev_user_entry
  prev fuel d = elim d.direction [
    | reverse ↦ find_prev_user_entry fuel d
    | forward ↦ elim (scan_back fuel (record d { saved_key = extract_user_key (it.key d.iter) })) [
      | none ↦ none
      | some (false, d') ↦ some d'
      | some (true, d') ↦ find_prev_user_entry fuel d'
    ]
  ]

  abbrev pub seek_key : Bytes → Bytes
  seek_key target =
      append_internal_key []
        (record { user_key = target; sequence = snapshot; type = value_type_for_seek })

  -- `Seek` and `SeekToFirst` once the internal iterator has moved.
  unfoldable pub show_next : ℕ → DbIter S R → Option (DbIter S R)
  show_next fuel d =
      if it.valid d.iter
      then find_next_user_entry fuel false d
      else some (record d { valid = false })

  unfoldable pub seek : ℕ → Bytes → DbIter S R → Option (DbIter S R)
  unfolding show_next
  seek fuel target d = show_next fuel (record d {
    direction = forward;
    saved_value = [];
    saved_key = seek_key target;
    iter = it.seek (seek_key target) d.iter;
  })

  unfoldable pub seek_to_first : ℕ → DbIter S R → Option (DbIter S R)
  unfolding show_next
  seek_to_first fuel d =
      show_next fuel
        (record d { direction = forward; saved_value = []; iter = it.seek_to_first d.iter })

  unfoldable pub seek_to_last : ℕ → DbIter S R → Option (DbIter S R)
  unfolding find_prev_user_entry
  seek_to_last fuel d =
      find_prev_user_entry fuel
        (record d { direction = reverse; saved_value = []; iter = it.seek_to_last d.iter })
