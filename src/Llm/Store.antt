-- ===== src/Llm/Store.antt =====
-- The store of worker-llm/src/docrunr_worker_llm/job_store.py: `PersistedLlmJob`, `enqueue_job`,
-- `_event_to_job`, the upsert and `_flush_batch`. Its coercions, its counters and the time of the
-- last job are written as in the store of the extraction worker.
pub mod Refines
use docrunr.Base.{
  ℕ, ◌+◌, Bool, true, false, Option, none, some, List, [], ◌∷◌, Text, codes, text_eq, if◌then◌else◌,
  ℤ, map,
}
use docrunr.JobStatus.{
  Status, status_of, Effect, replay_stats_transition, is_terminal, is_processing,
}
use docrunr.JobStore.Event.{
  Value, Floats, as_non_empty_str, as_optional_str, as_int, as_float, received_time, finished_time,
  set_default,
}
use docrunr.JobStore.Flush.{Stats, add_finished, latest, advance_last_job_at}

pub record PersistedLlmJob (F : Type 0) : Type 0 where
  pub job_id : Text
  pub status : Status
  pub filename : Text
  pub source_path : Text
  pub chunks_path : Text
  pub llm_profile : Text
  pub provider : Text
  pub chunk_count : ℤ
  pub vector_count : ℤ
  pub duration_seconds : F
  pub artifact_path : Option Text
  pub error_text : Option Text
  pub received_at : Text
  pub finished_at : Option Text
  pub updated_at : Option Text

-- The keys of an event that the store reads.
pub record LlmEvent (F : Type 0) : Type 0 where
  pub job_id : Value F
  pub status : Value F
  pub filename : Value F
  pub source_path : Value F
  pub chunks_path : Value F
  pub llm_profile : Value F
  pub provider : Value F
  pub chunk_count : Value F
  pub vector_count : Value F
  pub duration_seconds : Value F
  pub artifact_path : Value F
  pub error_text : Value F
  pub received_at : Value F
  pub finished_at : Value F
  pub updated_at : Value F

pub record LlmRow (F : Type 0) : Type 0 where
  pub job : PersistedLlmJob F
  pub replay_stats_suppress : ℕ

pub record LlmStore (F : Type 0) : Type 0 where
  pub rows : List (LlmRow F)
  pub stats : Stats F

-- The variables of the loop over the events of a batch, and the rows that it writes.
pub record LlmBatch (F : Type 0) : Type 0 where
  pub rows : List (LlmRow F)
  pub ok_count : ℕ
  pub error_count : ℕ
  pub duration_total : F
  pub transitioned_finished_at : List Text

module _ {F : Type 0} where
  -- `SELECT status, replay_stats_suppress FROM llm_job_events WHERE job_id = ?`
  find_row : Text → List (LlmRow F) → Option (LlmRow F)
  find_row job_id [] = none
  find_row job_id (r ∷ rows) =
      let rest = find_row job_id rows in if text_eq r.job.job_id job_id then some r else rest

  -- `ON CONFLICT(job_id) DO UPDATE SET …`
  update_row : PersistedLlmJob F → ℕ → LlmRow F → LlmRow F
  unfolding is_terminal
  update_row job suppress r = record {
    job = record job {
      job_id = r.job.job_id;
      received_at = if is_processing job.status then job.received_at else r.job.received_at;
      finished_at = if is_terminal job.status then job.finished_at else none;
    };
    replay_stats_suppress = suppress;
  }

  upsert : PersistedLlmJob F → ℕ → List (LlmRow F) → List (LlmRow F)
  unfolding update_row
  upsert job suppress [] = record { job = job; replay_stats_suppress = suppress } ∷ []
  upsert job suppress (r ∷ rows) =
      let rest = upsert job suppress rows in
      if text_eq r.job.job_id job.job_id then update_row job suppress r ∷ rows else r ∷ rest

  abbrev row_status : Option (LlmRow F) → Option Status
  row_status none = none
  row_status (some r) = some r.job.status

  abbrev row_suppress : Option (LlmRow F) → ℕ
  row_suppress none = 0
  row_suppress (some r) = r.replay_stats_suppress

module _ {F : Type 0} (floats : Floats F) where
  abbrev transition : Option (LlmRow F) → PersistedLlmJob F → Effect F
  transition r job =
      replay_stats_transition floats.zero_float (row_status r) (row_suppress r) job.status
        job.duration_seconds job.finished_at

  abbrev count : PersistedLlmJob F → Effect F → LlmBatch F → LlmBatch F
  count job effect b = record {
    rows = upsert job effect.new_suppress b.rows;
    ok_count = b.ok_count + effect.ok_delta;
    error_count = b.error_count + effect.err_delta;
    duration_total = floats.add_float b.duration_total effect.duration_delta;
    transitioned_finished_at = add_finished effect.finished_at b.transitioned_finished_at;
  }

  -- The body of the loop over the events.
  write_job : PersistedLlmJob F → LlmBatch F → LlmBatch F
  unfolding find_row upsert
  write_job job b = count job (transition (find_row job.job_id b.rows) job) b

  write_jobs : List (PersistedLlmJob F) → LlmBatch F → LlmBatch F
  unfolding write_job
  write_jobs [] b = b
  write_jobs (job ∷ jobs) b = write_jobs jobs (write_job job b)

  -- The update of `llm_worker_stats` behind the loop.
  add_batch : Stats F → LlmBatch F → Stats F
  unfolding latest advance_last_job_at
  add_batch stats b = record {
    processed = stats.processed + b.ok_count;
    failed = stats.failed + b.error_count;
    total_duration = floats.add_float stats.total_duration b.duration_total;
    last_job_at = advance_last_job_at stats.last_job_at (latest b.transitioned_finished_at);
  }

  abbrev start_batch : List (LlmRow F) → LlmBatch F
  start_batch rows = record {
    rows = rows;
    ok_count = 0;
    error_count = 0;
    duration_total = floats.zero_float;
    transitioned_finished_at = [];
  }

  flush_jobs : List (PersistedLlmJob F) → LlmStore F → LlmStore F
  unfolding write_jobs add_batch
  flush_jobs jobs store =
      let b = write_jobs jobs (start_batch store.rows) in
      record { rows = b.rows; stats = add_batch store.stats b }

module _ {F : Type 0} (floats : Floats F) (print_int : ℤ → Text) where
  event_to_job : Text → LlmEvent F → PersistedLlmJob F
  unfolding as_non_empty_str as_optional_str as_int as_float received_time finished_time status_of
  event_to_job now event =
      let status = status_of (as_non_empty_str floats print_int event.status (codes "unknown")) in
      let finished_at = as_optional_str floats print_int event.finished_at in
      record {
        job_id = as_non_empty_str floats print_int event.job_id (codes "unknown");
        status = status;
        filename = as_non_empty_str floats print_int event.filename (codes "unknown");
        source_path = as_non_empty_str floats print_int event.source_path (codes "unknown");
        chunks_path = as_non_empty_str floats print_int event.chunks_path [];
        llm_profile = as_non_empty_str floats print_int event.llm_profile [];
        provider = as_non_empty_str floats print_int event.provider [];
        chunk_count = as_int floats print_int event.chunk_count;
        vector_count = as_int floats print_int event.vector_count;
        duration_seconds = as_float floats print_int event.duration_seconds;
        artifact_path = as_optional_str floats print_int event.artifact_path;
        error_text = as_optional_str floats print_int event.error_text;
        received_at =
            received_time floats print_int status
              (as_optional_str floats print_int event.received_at) finished_at now;
        finished_at = finished_time floats print_int status finished_at now;
        updated_at = as_optional_str floats print_int event.updated_at;
      }

  -- What `enqueue_job` puts on the queue.
  stamp_event : Text → LlmEvent F → LlmEvent F
  unfolding as_non_empty_str set_default status_of
  stamp_event now event =
      if is_processing (status_of (as_non_empty_str floats print_int event.status []))
      then record event {
        updated_at = set_default floats print_int event.updated_at now;
        received_at = set_default floats print_int event.received_at now;
      }
      else record event {
        updated_at = set_default floats print_int event.updated_at now;
        finished_at = set_default floats print_int event.finished_at now;
      }

  -- `_flush_batch`; a transaction that fails is rolled back.
  pub flush_batch : Bool → List (Text × LlmEvent F) → LlmStore F → LlmStore F
  unfolding flush_jobs event_to_job
  flush_batch commits [] store = store
  flush_batch commits (e ∷ events) store =
      if commits
      then flush_jobs floats (map (λ (now, event). event_to_job now event) (e ∷ events)) store
      else store
