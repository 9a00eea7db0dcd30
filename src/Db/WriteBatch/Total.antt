-- ===== src/Db/WriteBatch/Total.antt =====
-- `Iterate` ends on every byte string.
use rally_db.Prelude.{
  ℕ, zero, suc, ◌+◌, ◌%◌, ◌^◌, ◌≤◌, [], ◌∷◌, ◌≡◌, refl, ◌≢◌, ◌⊎◌, inl, inr, none, arith, length,
  length-drop, drop, Option-cases,
}
use rally_db.Util.Status.{Status}
use rally_db.Util.Coding.{Bytes, get_length_prefixed_slice}
use rally_db.Util.Coding.Takes.{get_length_prefixed_slice_takes}
use rally_db.Db.WriteBatch.{
  Handler, Round, more, stop, read_put, read_delete, read_record, iterate_loop, iterate,
}

module _ {S : Type 0} (handler : Handler S) where
  read_delete_takes :
      (input : Bytes) (s : S) (rest : Bytes) (s' : S)
      → read_delete handler input s ≡ more rest s'
      → length rest ≤ length input
  unfolding read_delete
  read_delete_takes input s rest s' e = elim (Option-cases (get_length_prefixed_slice input)) [
    | inl miss ↦ absurd (ground arith)
    | inr ((key, r), hit) ↦ ground (arith, get_length_prefixed_slice_takes input key r)
  ]

  read_put_takes :
      (input : Bytes) (s : S) (rest : Bytes) (s' : S)
      → read_put handler input s ≡ more rest s'
      → length rest ≤ length input
  unfolding read_put
  read_put_takes input s rest s' e = elim (Option-cases (get_length_prefixed_slice input)) [
    | inl miss ↦ absurd (ground arith)
    | inr ((key, r), hit) ↦ elim (Option-cases (get_length_prefixed_slice r)) [
      | inl miss ↦ absurd (ground arith)
      | inr ((val, r'), hit') ↦ ground (
        arith,
        get_length_prefixed_slice_takes input key r,
        get_length_prefixed_slice_takes r val r',
      )
    ]
  ]

  read_record_takes :
      (tag : ℕ) (input : Bytes) (s : S) (rest : Bytes) (s' : S)
      → read_record handler tag input s ≡ more rest s'
      → length rest ≤ length input
  unfolding read_record
  read_record_takes tag input s rest s' e =
      ground (arith, read_put_takes input s rest s', read_delete_takes input s rest s')

  Round-cases :
      (r : Round S)
      → ((rest : Bytes) × (s : S) × (r ≡ more rest s)) ⊎ ((st : Status) × (r ≡ stop st))
  Round-cases (more rest s) = inl (rest, s, refl)
  Round-cases (stop st) = inr (st, refl)

  loop-ne-none :
      (fuel : ℕ) (input : Bytes) (found : ℕ) (s : S)
      → length input ≤ fuel
      → iterate_loop handler fuel input found s ≢ none
  unfolding iterate_loop
  loop-ne-none fuel [] found s h = λ e. cc
  loop-ne-none zero (tag ∷ input) found s h = absurd (omega arith)
  loop-ne-none (suc fuel) (tag ∷ input) found s h =
      elim (Round-cases (read_record handler tag input s)) [
        | inl (rest, s', r) ↦
            rw (r, iterate_loop)
              (loop-ne-none fuel rest ((found + 1) % 2 ^ 32) s'
                (omega (arith, read_record_takes tag input s rest s' r)))
        | inr (st, r) ↦ rw (r, iterate_loop) (λ e. cc)
      ]

  -- On every byte string, well formed or not, `Iterate` returns a status: its loop ends.
  pub iterate-ne-none : (rep : Bytes) (s : S) → iterate handler rep s ≢ none
  unfolding iterate
  iterate-ne-none rep s =
      ground (arith, loop-ne-none (length rep) (drop 12 rep) 0 s, length-drop 12 rep)
