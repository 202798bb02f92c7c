-- ===== src/JobStore/Migrate/Rebuilt.antt =====
-- What the new table holds.
use mathlib.Core.Path.{subst}
use docrunr.Base.{
  ◌≡◌, refl, sym, ap, ◌∙◌, true, false, not, ◌||◌, Option, none, some, List, [], ◌∷◌, Text, text_eq,
  text_eq_iff, if◌then◌else◌, Bool-cases, Option-cases, inl, inr, arith,
}
use docrunr.JobStatus.{is_ok, is_error}
use docrunr.JobStore.Event.{Floats}
use docrunr.JobStore.Table.{Row, find_row, Unique}
use docrunr.JobStore.Flush.{Stats, Store, count_status, recompute_stats}
use docrunr.JobStore.Migrate.{
  OldRow, OldTable, rebuilt, has_newer, newest, new_row, time_of, insert_rows, migrate_lifecycle,
}

module _ {F : Type 0} where
  -- The row of a job with the greatest `id`.
  abbrev pub last_row : Text → List (OldRow F) → Option (OldRow F)
  last_row k [] = none
  last_row k (r ∷ rows) = elim (last_row k rows) [
    | some s ↦ some s
    | none ↦ if text_eq r.job_id k then some r else none
  ]

  abbrev pub moved_at : OldRow F → Option Text → Option (Row F)
  moved_at r none = none
  moved_at r (some t) = some (new_row r t)

  abbrev pub moved_row : Option (OldRow F) → Option (Row F)
  moved_row none = none
  moved_row (some r) = moved_at r (time_of r)

  -- `OldRow`s by their first
  first_row : Text → List (OldRow F) → Option (OldRow F)
  first_row k [] = none
  first_row k (r ∷ rows) =
      let rest = first_row k rows in if text_eq r.job_id k then some r else rest

  has_newer-last_row :
      (k : Text) (rows : List (OldRow F)) → has_newer k rows ≡ false → last_row k rows ≡ none
  has_newer-last_row k [] h = refl
  has_newer-last_row k (r ∷ rows) h = rw (has_newer-last_row k rows (ground arith)) (ground arith)

  has_newer-some :
      (k : Text) (rows : List (OldRow F))
      → has_newer k rows ≡ true
      → (r : OldRow F) × (last_row k rows ≡ some r)
  has_newer-some k [] h = absurd (cc)
  has_newer-some k (r ∷ rows) h = elim (Option-cases (last_row k rows)) [
    | inr (s, e) ↦ (s, rw e refl)
    | inl e ↦ elim (Bool-cases (has_newer k rows)) [
      | inl later ↦ absurd (cc (e, (has_newer-some k rows later).1))
      | inr none_later ↦ (r, rw e (ground arith))
    ]
  ]

  -- Of the kept rows the first of a job is its last.
  first_row-newest :
      (k : Text) (rows : List (OldRow F)) → first_row k (newest rows) ≡ last_row k rows
  unfolding first_row newest
  first_row-newest k [] = refl
  first_row-newest k (r ∷ rows) = elim (Bool-cases (has_newer r.job_id rows)) [
    | inl later ↦ rw later (
        first_row-newest k rows ∙ (elim (Option-cases (last_row k rows)) [
          | inr (s, e) ↦ rw e refl
          | inl e ↦ elim (Bool-cases (text_eq r.job_id k)) [
            | inr other ↦ rw (e, other) refl
            | inl same ↦
                let there = has_newer-some r.job_id rows later in
                let k_same : r.job_id ≡ k = (text_eq_iff r.job_id k).0 same in
                absurd (cc (e, there.1, k_same, ap (λ t. last_row t rows) k_same))
          ]
        ]))
    | inr newest_one ↦ rw newest_one (elim (Bool-cases (text_eq r.job_id k)) [
      | inl same ↦
          let k_same : r.job_id ≡ k = (text_eq_iff r.job_id k).0 same in
          let alone : last_row k rows ≡ none =
            has_newer-last_row k rows (ap (λ t. has_newer t rows) (sym k_same) ∙ newest_one) in
          rw (same, alone, same) refl
      | inr other ↦ elim (Option-cases (last_row k rows)) [
        | inr (s, e) ↦ rw (other, e) (first_row-newest k rows ∙ e)
        | inl e ↦ rw (other, e, other) (first_row-newest k rows ∙ e)
      ]
    ])
  ]

  -- Each row of the new table is an old one, and they stand in the same order.
  find_row-insert_rows :
      (k : Text) (old : List (OldRow F)) (rows : List (Row F))
      → insert_rows old ≡ some rows
      → find_row k rows ≡ moved_row (first_row k old)
  unfolding insert_rows find_row first_row
  find_row-insert_rows k [] rows e = let same : [] ≡ rows = cc in rw (← same) refl
  find_row-insert_rows k (r ∷ old) rows e = elim (Option-cases (time_of r)) [
    | inl untimed ↦ absurd (cc (rw untimed at e))
    | inr (t, timed) ↦ elim (Option-cases (insert_rows old)) [
      | inl bad ↦ absurd (cc (rw (timed, bad) at e))
      | inr (rest, good) ↦
          let same : new_row r t ∷ rest ≡ rows = cc (rw (timed, good) at e) in
          let ih = find_row-insert_rows k old rest good in
          rw (← same) (elim (Bool-cases (text_eq r.job_id k)) [
            | inl own ↦ rw (own, ap (moved_at r) timed) refl
            | inr other ↦ rw other ih
          ])
    ]
  ]

  insert_rows-Unique :
      (old : List (OldRow F)) (rows : List (Row F))
      → insert_rows (newest old) ≡ some rows
      → Unique rows
  unfolding insert_rows newest
  insert_rows-Unique [] rows e = let same : [] ≡ rows = cc in rw (← same) tt
  insert_rows-Unique (r ∷ old) rows e = elim (Bool-cases (has_newer r.job_id old)) [
    | inl later ↦ insert_rows-Unique old rows (rw later at e)
    | inr newest_one ↦ elim (Option-cases (time_of r)) [
      | inl untimed ↦ absurd (cc (rw (newest_one, untimed) at e))
      | inr (t, timed) ↦ elim (Option-cases (insert_rows (newest old))) [
        | inl bad ↦ absurd (cc (rw (newest_one, timed, bad) at e))
        | inr (rest, good) ↦
            let same : new_row r t ∷ rest ≡ rows = cc (rw (newest_one, timed, good) at e) in
            let alone : find_row r.job_id rest ≡ none =
              find_row-insert_rows r.job_id (newest old) rest good
              ∙ ap moved_row
                  (first_row-newest r.job_id old ∙ has_newer-last_row r.job_id old newest_one) in
            rw (← same) (alone, insert_rows-Unique old rest good)
      ]
    ]
  ]

module _ {F : Type 0} (floats : Floats F) where
  -- The new table against the old one.
  pub record IsRebuilt (old : List (OldRow F)) (store : Store F) : Type 0 where
    pub unique : Unique store.rows
    pub newest_stays : (k : Text) → find_row k store.rows ≡ moved_row (last_row k old)
    pub processed : store.stats.processed ≡ count_status floats is_ok store.rows
    pub errors : store.stats.failed ≡ count_status floats is_error store.rows

  -- When the table is built anew, the ids of the new rows differ; the row of each job is its row
  -- with the greatest id, moved with its time of receipt, or of finish where that is missing, and
  -- with `total_chars` at 0 and no latch; jobs that had no row have none; and both counters are
  -- those of the new rows.
  pub migrate_lifecycle-IsRebuilt :
      (table : OldTable F) (stats : Stats F) (store : Store F)
      → migrate_lifecycle floats table stats ≡ rebuilt store
      → IsRebuilt table.rows store
  unfolding migrate_lifecycle recompute_stats
  migrate_lifecycle-IsRebuilt table stats store e =
      elim (Bool-cases (not table.has_received || table.finished_not_null)) [
        | inr kept ↦ absurd (cc (rw kept at e))
        | inl old ↦ elim (Option-cases (insert_rows (newest table.rows))) [
          | inl bad ↦ absurd (cc (rw (old, bad) at e))
          | inr (rows, good) ↦
              let same : recompute_stats floats (record { rows = rows; stats = stats }) ≡ store =
                cc (rw (old, good) at e) in
              subst (IsRebuilt table.rows) same (record {
                unique = insert_rows-Unique table.rows rows good;
                newest_stays = λ k.
                    find_row-insert_rows k (newest table.rows) rows good
                    ∙ ap moved_row (first_row-newest k table.rows);
                processed = refl;
                errors = refl;
              })
        ]
      ]
