-- ===== src/JobStore/Flush/History.antt =====
-- The table as a map from job ids to rows, each of which follows the events of its own job.
use docrunr.Base.{
  ◌≡◌, refl, ap, ◌∙◌, Option, some, List, [], ◌∷◌, Text, text_eq, text_eq_iff, if◌then◌else◌,
  Bool-cases, inl, inr,
}
use docrunr.JobStatus.{replay_stats_transition}
use docrunr.JobStore.Event.{PersistedJob, Floats}
use docrunr.JobStore.Table.{Row, find_row, written, find_row-upsert}
use docrunr.JobStore.Flush.{
  Store, Batch, row_status, row_suppress, transition, write_job, write_jobs, start_batch,
  flush_jobs,
}

module _ {F : Type 0} (floats : Floats F) where
  -- The events of one job.
  abbrev pub own : Text → List (PersistedJob F) → List (PersistedJob F)
  own k [] = []
  own k (job ∷ jobs) = let rest = own k jobs in if text_eq job.job_id k then job ∷ rest else rest

  -- What an event makes of the row of its job: no other row is looked at.
  abbrev pub next_row : PersistedJob F → Option (Row F) → Option (Row F)
  next_row job r = some (
      written job
        (replay_stats_transition floats.zero_float (row_status r) (row_suppress r) job.status
          job.duration_seconds job.finished_at).new_suppress
        r)

  abbrev pub life : List (PersistedJob F) → Option (Row F) → Option (Row F)
  life [] r = r
  life (job ∷ jobs) r = life jobs (next_row job r)

  find_row-write_job :
      (k : Text) (job : PersistedJob F) (b : Batch F)
      → find_row k (write_job floats job b).rows
        ≡ (if text_eq job.job_id k then next_row job (find_row k b.rows) else find_row k b.rows)
  unfolding write_job
  find_row-write_job k job b = elim (Bool-cases (text_eq job.job_id k)) [
    | inr other ↦
        find_row-upsert k job (transition floats b.rows job).new_suppress b.rows ∙ rw other refl
    | inl own ↦
        let same : job.job_id ≡ k = (text_eq_iff job.job_id k).0 own in
        find_row-upsert k job (transition floats b.rows job).new_suppress b.rows
        ∙ rw own (ap (λ t. next_row job (find_row t b.rows)) same)
  ]

  find_row-write_jobs :
      (k : Text) (jobs : List (PersistedJob F)) (b : Batch F)
      → find_row k (write_jobs floats jobs b).rows ≡ life (own k jobs) (find_row k b.rows)
  unfolding write_jobs
  find_row-write_jobs k [] b = refl
  find_row-write_jobs k (job ∷ jobs) b =
      let step = find_row-write_job k job b in
      let rest = find_row-write_jobs k jobs (write_job floats job b) in
      elim (Bool-cases (text_eq job.job_id k)) [
        | inl own_event ↦ rw own_event (rest ∙ ap (life (own k jobs)) (rw own_event at step))
        | inr other ↦ rw other (rest ∙ ap (life (own k jobs)) (rw other at step))
      ]

  -- The table refines a map from job ids to rows: behind any batch, the row of a job is what the
  -- events of this job, in their order, make of its row before. Events of other jobs, wherever they
  -- stand between them, do not matter, so neither does the order of events of different jobs.
  pub find_row-flush_jobs :
      (k : Text) (jobs : List (PersistedJob F)) (store : Store F)
      → find_row k (flush_jobs floats jobs store).rows ≡ life (own k jobs) (find_row k store.rows)
  unfolding flush_jobs
  find_row-flush_jobs k jobs store = find_row-write_jobs k jobs (start_batch floats store.rows)
