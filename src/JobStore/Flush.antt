-- ===== src/JobStore/Flush.antt =====
-- `_flush_batch`, `_recompute_worker_stats_from_job_events` and the table `worker_stats` of
-- worker/src/docrunr_worker/job_store.py.
pub mod Replay
pub mod Invariant
pub mod Batches
pub mod History
use docrunr.Base.{
  ℕ, ◌+◌, ◌≡◌, Bool, true, false, Option, none, some, List, [], ◌∷◌, ◌++◌, Text, text_ltb, text_max,
  if◌then◌else◌, is_empty, ℤ, map,
}
use docrunr.JobStatus.{Status, Effect, replay_stats_transition, is_ok, is_error, is_terminal}
use docrunr.JobStore.Event.{PersistedJob, Event, Floats, event_to_job, non_empty}
use docrunr.JobStore.Table.{Row, find_row, upsert}

-- The row of `worker_stats`. Its column `jobs_total` is never written.
pub record Stats (F : Type 0) : Type 0 where
  pub processed : ℕ
  pub failed : ℕ
  pub total_duration : F
  pub last_job_at : Option Text

pub record Store (F : Type 0) : Type 0 where
  pub rows : List (Row F)
  pub stats : Stats F

-- The variables of the loop over the events of a batch, and the rows that it writes.
pub record Batch (F : Type 0) : Type 0 where
  pub rows : List (Row F)
  pub ok_count : ℕ
  pub error_count : ℕ
  pub duration_total : F
  pub transitioned_finished_at : List Text

abbrev pub row_status : {F : Type 0} → Option (Row F) → Option Status
row_status none = none
row_status (some r) = some r.job.status

abbrev pub row_suppress : {F : Type 0} → Option (Row F) → ℕ
row_suppress none = 0
row_suppress (some r) = r.replay_stats_suppress

-- `if fin_iso: transitioned_finished_at.append(fin_iso)`
abbrev pub add_finished : Option Text → List Text → List Text
add_finished none times = times
add_finished (some t) times = if is_empty t then times else times ++ t ∷ []

-- `max(times, default=None)`
abbrev pub later : Option Text → Text → Text
later none t = t
later (some s) t = text_max s t

unfoldable pub latest_from : Option Text → List Text → Option Text
latest_from best [] = best
latest_from best (t ∷ times) = latest_from (some (later best t)) times

unfoldable pub latest : List Text → Option Text
unfolding latest_from
latest times = latest_from none times

-- The `CASE` of `last_job_at` in the update of `worker_stats`.
unfoldable pub advance_last_job_at : Option Text → Option Text → Option Text
advance_last_job_at current none = current
advance_last_job_at none (some t) = some t
advance_last_job_at (some s) (some t) = if text_ltb s t then some t else some s

module _ {F : Type 0} (floats : Floats F) where
  abbrev pub transition : List (Row F) → PersistedJob F → Effect F
  transition rows job =
      replay_stats_transition floats.zero_float (row_status (find_row job.job_id rows))
        (row_suppress (find_row job.job_id rows)) job.status job.duration_seconds job.finished_at

  -- The body of the loop over the events.
  unfoldable pub write_job : PersistedJob F → Batch F → Batch F
  write_job job b =
      let effect = transition b.rows job in
      record {
        rows = upsert job effect.new_suppress b.rows;
        ok_count = b.ok_count + effect.ok_delta;
        error_count = b.error_count + effect.err_delta;
        duration_total = floats.add_float b.duration_total effect.duration_delta;
        transitioned_finished_at = add_finished effect.finished_at b.transitioned_finished_at;
      }

  unfoldable pub write_jobs : List (PersistedJob F) → Batch F → Batch F
  unfolding write_job
  write_jobs [] b = b
  write_jobs (job ∷ jobs) b = write_jobs jobs (write_job job b)

  abbrev pub start_batch : List (Row F) → Batch F
  start_batch rows = record {
    rows = rows;
    ok_count = 0;
    error_count = 0;
    duration_total = floats.zero_float;
    transitioned_finished_at = [];
  }

  -- The update of `worker_stats` behind the loop.
  unfoldable pub add_batch : Stats F → Batch F → Stats F
  unfolding latest advance_last_job_at
  add_batch stats b = record {
    processed = stats.processed + b.ok_count;
    failed = stats.failed + b.error_count;
    total_duration = floats.add_float stats.total_duration b.duration_total;
    last_job_at = advance_last_job_at stats.last_job_at (latest b.transitioned_finished_at);
  }

  unfoldable pub flush_jobs : List (PersistedJob F) → Store F → Store F
  unfolding write_jobs add_batch
  flush_jobs jobs store =
      let b = write_jobs jobs (start_batch store.rows) in
      record { rows = b.rows; stats = add_batch store.stats b }

  -- `_flush_batch`. Each event comes with the clock at which it is written, and `commits` says
  -- whether SQLite carried the transaction through: the exception of a failed one is logged, and
  -- the transaction is rolled back.
  unfoldable pub flush_batch : (ℤ → Text) → Bool → List (Text × Event F) → Store F → Store F
  unfolding flush_jobs
  flush_batch print_int commits [] store = store
  flush_batch print_int commits (e ∷ events) store =
      if commits
      then flush_jobs (map (λ (now, event). event_to_job floats print_int now event) (e ∷ events))
          store
      else store

  -- `SUM(CASE WHEN status = … THEN 1 ELSE 0 END)`
  unfoldable pub count_status : (Status → Bool) → List (Row F) → ℕ
  count_status test [] = 0
  count_status test (r ∷ rows) = (if test r.job.status then 1 else 0) + count_status test rows

  ok_duration : F → List (Row F) → F
  ok_duration acc [] = acc
  ok_duration acc (r ∷ rows) =
      ok_duration
        (floats.add_float acc
          (if is_ok r.job.status then r.job.duration_seconds else floats.zero_float))
        rows

  -- `MAX(CASE WHEN status IN (…) THEN finished_at END)`
  terminal_times : List (Row F) → List Text
  unfolding is_terminal
  terminal_times [] = []
  terminal_times (r ∷ rows) =
      let rest = terminal_times rows in
      if is_terminal r.job.status
      then (elim r.job.finished_at [ none ↦ rest | some t ↦ t ∷ rest ])
      else rest

  -- `_recompute_worker_stats_from_job_events`
  unfoldable pub recompute_stats : Store F → Store F
  unfolding count_status ok_duration terminal_times latest
  recompute_stats store = record store {
    stats = record {
      processed = count_status is_ok store.rows;
      failed = count_status is_error store.rows;
      total_duration = ok_duration floats.zero_float store.rows;
      last_job_at = latest (terminal_times store.rows);
    };
  }
