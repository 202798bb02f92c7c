-- ===== src/Llm/Store/Refines.antt =====
-- Without the columns that only it has, the store of the worker for embeddings is that of the
-- extraction worker.
use docrunr.Base.{
  ℕ, ◌≡◌, refl, ap, ◌∙◌, Bool, true, false, Option, none, some, List, [], ◌∷◌, Text, text_eq, ℤ,
  pos, map, parse_int, Bool-cases, inl, inr, sym,
}
use docrunr.JobStore.Event.{
  none_value, Floats, PersistedJob, Event, event_to_job, as_optional_str, as_int, as_mime_type,
  as_job_priority,
}
use docrunr.JobStore.Table
use docrunr.JobStore.Table.{Row}
use docrunr.JobStore.Flush
use docrunr.JobStore.Flush.{Store, Batch}
use docrunr.Llm.Store
use docrunr.Llm.Store.{PersistedLlmJob, LlmEvent, LlmRow, LlmStore, LlmBatch}

module _ {F : Type 0} where
  -- The columns that both stores have; the others are empty.
  abbrev pub view_job : PersistedLlmJob F → PersistedJob F
  view_job job = record {
    job_id = job.job_id;
    status = job.status;
    filename = job.filename;
    source_path = job.source_path;
    markdown_path = none;
    chunks_path = none;
    total_tokens = pos 0;
    total_chars = pos 0;
    chunk_count = job.chunk_count;
    duration_seconds = job.duration_seconds;
    error_text = job.error_text;
    received_at = job.received_at;
    finished_at = job.finished_at;
    updated_at = job.updated_at;
    mime_type = [];
    size_bytes = pos 0;
    priority = pos 0;
  }

  abbrev pub view_event : LlmEvent F → Event F
  view_event e = record {
    job_id = e.job_id;
    status = e.status;
    filename = e.filename;
    source_path = e.source_path;
    markdown_path = none_value;
    chunks_path = none_value;
    total_tokens = none_value;
    total_chars = none_value;
    chunk_count = e.chunk_count;
    duration_seconds = e.duration_seconds;
    error_text = e.error_text;
    received_at = e.received_at;
    finished_at = e.finished_at;
    updated_at = e.updated_at;
    mime_type = none_value;
    size_bytes = none_value;
    priority = none_value;
  }

  abbrev pub view_row : LlmRow F → Row F
  view_row r = record { job = view_job r.job; replay_stats_suppress = r.replay_stats_suppress }

  abbrev pub view : LlmStore F → Store F
  view store = record { rows = map view_row store.rows; stats = store.stats }

  abbrev view_batch : LlmBatch F → Batch F
  view_batch b = record {
    rows = map view_row b.rows;
    ok_count = b.ok_count;
    error_count = b.error_count;
    duration_total = b.duration_total;
    transitioned_finished_at = b.transitioned_finished_at;
  }

  abbrev view_found : Option (LlmRow F) → Option (Row F)
  view_found none = none
  view_found (some r) = some (view_row r)

  find_row-view :
      (k : Text) (rows : List (LlmRow F))
      → Table.find_row k (map view_row rows) ≡ view_found (Store.find_row k rows)
  unfolding Table.find_row Store.find_row
  find_row-view k [] = refl
  find_row-view k (r ∷ rows) = elim (Bool-cases (text_eq r.job.job_id k)) [
    | inl same ↦ rw same refl
    | inr other ↦ rw other (find_row-view k rows)
  ]

  upsert-view :
      (job : PersistedLlmJob F) (suppress : ℕ) (rows : List (LlmRow F))
      → Table.upsert (view_job job) suppress (map view_row rows)
        ≡ map view_row (Store.upsert job suppress rows)
  unfolding Table.upsert Store.upsert Table.update_row
  upsert-view job suppress [] = refl
  upsert-view job suppress (r ∷ rows) = elim (Bool-cases (text_eq r.job.job_id job.job_id)) [
    | inl same ↦ rw same refl
    | inr other ↦ rw other (ap (λ t. view_row r ∷ t) (upsert-view job suppress rows))
  ]

module _ {F : Type 0} (floats : Floats F) where
  transition-view :
      (r : Option (LlmRow F)) (job : PersistedLlmJob F) (rows : List (Row F))
      → Table.find_row job.job_id rows ≡ view_found r
      → Flush.transition floats rows (view_job job) ≡ Store.transition floats r job
  transition-view none job rows e = rw e refl
  transition-view (some r) job rows e = rw e refl

  write_job-view :
      (job : PersistedLlmJob F) (b : LlmBatch F)
      → Flush.write_job floats (view_job job) (view_batch b)
        ≡ view_batch (Store.write_job floats job b)
  unfolding Flush.write_job Store.write_job
  write_job-view job b =
      let effect = Store.transition floats (Store.find_row job.job_id b.rows) job in
      let same =
        transition-view (Store.find_row job.job_id b.rows) job (map view_row b.rows)
          (find_row-view job.job_id b.rows) in
      rw (same, upsert-view job effect.new_suppress b.rows) refl

  write_jobs-view :
      (jobs : List (PersistedLlmJob F)) (b : LlmBatch F)
      → Flush.write_jobs floats (map view_job jobs) (view_batch b)
        ≡ view_batch (Store.write_jobs floats jobs b)
  unfolding Flush.write_jobs Store.write_jobs
  write_jobs-view [] b = refl
  write_jobs-view (job ∷ jobs) b =
      ap (Flush.write_jobs floats (map view_job jobs)) (write_job-view job b)
      ∙ write_jobs-view jobs (Store.write_job floats job b)

  flush_jobs-view :
      (jobs : List (PersistedLlmJob F)) (store : LlmStore F)
      → Flush.flush_jobs floats (map view_job jobs) (view store)
        ≡ view (Store.flush_jobs floats jobs store)
  unfolding Flush.flush_jobs Store.flush_jobs Store.add_batch Flush.add_batch
  flush_jobs-view jobs store = rw (write_jobs-view jobs (Store.start_batch floats store.rows)) refl

module _ {F : Type 0} (floats : Floats F) (print_int : ℤ → Text) where
  event_to_job-view :
      (now : Text) (e : LlmEvent F)
      → event_to_job floats print_int now (view_event e)
        ≡ view_job (Store.event_to_job floats print_int now e)
  unfolding event_to_job Store.event_to_job as_int as_optional_str as_mime_type as_job_priority
      parse_int
  event_to_job-view now e = refl

  jobs-view :
      (events : List (Text × LlmEvent F))
      → map
          (λ (now, event). event_to_job floats print_int now event)
          (map (λ (now, event). (now, view_event event)) events)
        ≡ map view_job (map (λ (now, event). Store.event_to_job floats print_int now event) events)
  jobs-view [] = refl
  jobs-view ((now, event) ∷ events) = rw (event_to_job-view now event, jobs-view events) refl

  -- Whatever the events are and whether the transaction is carried through or not, the store of the
  -- worker for embeddings behaves, without the columns that only it has, as that of the extraction
  -- worker does with the same events: the same rows in the same order, the same latches, counters
  -- and time of the last job.
  pub flush_batch-view :
      (commits : Bool) (events : List (Text × LlmEvent F)) (store : LlmStore F)
      → view (Store.flush_batch floats print_int commits events store)
        ≡ Flush.flush_batch floats print_int commits
            (map (λ (now, event). (now, view_event event)) events)
            (view store)
  unfolding Store.flush_batch Flush.flush_batch
  flush_batch-view commits [] store = refl
  flush_batch-view false (e ∷ events) store = refl
  flush_batch-view true (e ∷ events) store = sym (
      ap (λ jobs. Flush.flush_jobs floats jobs (view store)) (jobs-view (e ∷ events))
      ∙ flush_jobs-view floats
          (map (λ (now, event). Store.event_to_job floats print_int now event) (e ∷ events)) store)
