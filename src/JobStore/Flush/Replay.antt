-- ===== src/JobStore/Flush/Replay.antt =====
-- What a job that is seen again adds to the counters.
use docrunr.Base.{
  ◌+◌, ◌≡◌, ◌∙◌, refl, true, false, some, [], ◌∷◌, arith, text_eq_refl, if◌then◌else◌,
}
use docrunr.JobStatus.{processing, ok, is_terminal, replay_stats_transition, is_ok, prior_ok}
use docrunr.JobStore.Event.{PersistedJob, Floats}
use docrunr.JobStore.Table.{Row, find_row, update_row, find_row-upsert, written}
use docrunr.JobStore.Flush.{
  Store, Batch, row_status, write_job, write_jobs, start_batch, add_batch, flush_jobs, transition,
}

module _ {F : Type 0} (floats : Floats F) where
  -- The row of a job right behind its write, for a later event `next` of the same job.
  find_row-write_job :
      (job next : PersistedJob F) (b : Batch F)
      → next.job_id ≡ job.job_id
      → find_row next.job_id (write_job floats job b).rows
        ≡ some
            (written job (transition floats b.rows job).new_suppress (find_row job.job_id b.rows))
  unfolding write_job
  find_row-write_job job next b same =
      rw
        (
          find_row-upsert next.job_id job (transition floats b.rows job).new_suppress b.rows,
          same,
          text_eq_refl,
        )
        refl

module _ {F : Type 0} (floats : Floats F) (receipt outcome : PersistedJob F) (store : Store F)
    (r : Row F) (same : outcome.job_id ≡ receipt.job_id) (started : receipt.status ≡ processing)
    (finished : is_terminal outcome.status ≡ true)
    (stands : find_row receipt.job_id store.rows ≡ some r) where
  -- For a job whose row says `ok`, a `processing` event and then a terminal event in one batch
  -- leave both counters and the time of the last job as they are.
  pub replay_is_not_counted :
      r.job.status ≡ ok
      → let after = (flush_jobs floats (receipt ∷ outcome ∷ []) store).stats in
        (after.processed ≡ store.stats.processed)
        × (after.failed ≡ store.stats.failed)
        × (after.last_job_at ≡ store.stats.last_job_at)
  unfolding flush_jobs write_jobs add_batch replay_stats_transition update_row write_job
  replay_is_not_counted done =
      ground (arith, find_row-write_job floats receipt outcome (start_batch floats store.rows) same)

module _ {F : Type 0} (floats : Floats F) (receipt outcome : PersistedJob F) (store : Store F)
    (same : outcome.job_id ≡ receipt.job_id) (started : receipt.status ≡ processing)
    (finished : is_terminal outcome.status ≡ true) where
  -- For a job that has no row or one that does not say `ok`, a `processing` event and then a
  -- terminal event in one batch add one to the counter of the outcome and nothing to the other.
  -- That holds as well where the row says `processing` and its latch is set, as behind the receipt
  -- of a replay of a job that was `ok`: the new receipt clears the latch and the outcome counts
  -- again, while the docstring of `replay_stats_transition` says that a replay does not.
  pub run_is_counted :
      prior_ok (row_status (find_row receipt.job_id store.rows)) ≡ false
      → let after = (flush_jobs floats (receipt ∷ outcome ∷ []) store).stats in
        (after.processed ≡ store.stats.processed + (if is_ok outcome.status then 1 else 0))
        × (after.failed ≡ store.stats.failed + (if is_ok outcome.status then 0 else 1))
  unfolding flush_jobs write_jobs add_batch replay_stats_transition update_row write_job
  run_is_counted fresh =
      ground (arith, find_row-write_job floats receipt outcome (start_batch floats store.rows) same)

module _ {F : Type 0} (floats : Floats F) (receipt again outcome : PersistedJob F) (store : Store F)
    (r : Row F) (same : again.job_id ≡ receipt.job_id) (same' : outcome.job_id ≡ again.job_id)
    (started : receipt.status ≡ processing) (restarted : again.status ≡ processing)
    (finished : outcome.status ≡ ok) (stands : find_row receipt.job_id store.rows ≡ some r) where
  -- For a job whose row says `ok`, a `processing` event and then `ok` in one batch leave `processed`
  -- as it is, while two `processing` events and then `ok` in one batch add one to it.
  pub second_receipt_counts_again :
      r.job.status ≡ ok
      → ((flush_jobs floats (receipt ∷ outcome ∷ []) store).stats.processed ≡ store.stats.processed)
        × ((flush_jobs floats (receipt ∷ again ∷ outcome ∷ []) store).stats.processed
            ≡ store.stats.processed + 1)
  unfolding flush_jobs write_jobs add_batch replay_stats_transition update_row write_job
  second_receipt_counts_again done = (
    (replay_is_not_counted floats receipt outcome store r (same' ∙ same) started
        (rw (finished, is_terminal) refl) stands done).0,
    ground (
      arith,
      find_row-write_job floats receipt again (start_batch floats store.rows) same,
      find_row-write_job floats again outcome
          (write_job floats receipt (start_batch floats store.rows)) same',
    ),
  )
