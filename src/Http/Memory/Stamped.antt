-- ===== src/Http/Memory/Stamped.antt =====
-- What the job store makes of an event that `record_job` of
-- worker/src/docrunr_worker/health.py hands on.
use docrunr.Base.{◌≡◌, true, false, none, some, Text, codes, text_eq, strip, is_empty, ℤ, arith}
use docrunr.JobStatus
use docrunr.JobStatus.{Status, status_of, Effect, replay_stats_transition, is_terminal}
use docrunr.JobStore.Event.{
  none_value, str_value, Event, PersistedJob, Floats, event_to_job, stamp_event, as_non_empty_str,
  finished_time, set_default, as_optional_str,
}
use docrunr.Http.Memory.{Dict, get_or, stamp, is_receipt}

-- A text that `strip` leaves as it is, and that is not empty.
abbrev pub Plain : Text → Type 0
Plain t = (strip t ≡ t) × (is_empty t ≡ false)

module _ {F : Type 0} where
  -- What `get` gives for the keys that the store reads.
  abbrev pub event_of : Dict F → Event F
  event_of d = record {
    job_id = get_or none_value (d (codes "job_id"));
    status = get_or none_value (d (codes "status"));
    filename = get_or none_value (d (codes "filename"));
    source_path = get_or none_value (d (codes "source_path"));
    markdown_path = get_or none_value (d (codes "markdown_path"));
    chunks_path = get_or none_value (d (codes "chunks_path"));
    total_tokens = get_or none_value (d (codes "total_tokens"));
    total_chars = get_or none_value (d (codes "total_chars"));
    chunk_count = get_or none_value (d (codes "chunk_count"));
    duration_seconds = get_or none_value (d (codes "duration_seconds"));
    error_text = get_or none_value (d (codes "error"));
    received_at = get_or none_value (d (codes "received_at"));
    finished_at = get_or none_value (d (codes "finished_at"));
    updated_at = get_or none_value (d (codes "updated_at"));
    mime_type = get_or none_value (d (codes "mime_type"));
    size_bytes = get_or none_value (d (codes "size_bytes"));
    priority = get_or none_value (d (codes "priority"));
  }

-- An event with a job id and a status, texts that `strip` leaves as they are, without a time of its
-- end, which the worker leaves to `record_job`, and a clock that is not blank.
pub record IsRecordable {F : Type 0} (call : Text × Dict F) : Type 0 where
  pub job_id : Text
  pub status : Text
  pub named : call.1 (codes "job_id") ≡ some (str_value job_id)
  pub told : call.1 (codes "status") ≡ some (str_value status)
  pub unfinished : call.1 (codes "finished_at") ≡ none
  pub plain_id : Plain job_id
  pub plain_status : Plain status
  pub plain_now : Plain call.0

-- The event as the writer of the store writes it, with the clocks that `record_job`, `enqueue_job`
-- and the writer read.
abbrev pub written_job :
    {F : Type 0} → Floats F → (ℤ → Text) → Text → Text → Text → Dict F → PersistedJob F
written_job floats print_int now clock write_time d =
    event_to_job floats print_int write_time
      (stamp_event floats print_int clock (event_of (stamp now d)))

module _ {F : Type 0} (floats : Floats F) (print_int : ℤ → Text) (now clock write_time : Text)
    (d : Dict F) (c : IsRecordable (now, d)) where
  pub job_id-stamp : stamp now d (codes "job_id") ≡ some (str_value c.job_id)
  unfolding stamp is_receipt text_eq
  job_id-stamp = ground (arith, c.named)

  pub status-stamp : stamp now d (codes "status") ≡ some (str_value c.status)
  unfolding stamp is_receipt text_eq
  status-stamp = ground (arith, c.told)

  is_receipt-status : is_receipt d ≡ JobStatus.is_processing (status_of c.status)
  unfolding is_receipt status_of
  is_receipt-status = rw c.told (ground arith)

  pub finished_at-stamp :
      JobStatus.is_processing (status_of c.status) ≡ false
      → stamp now d (codes "finished_at") ≡ some (str_value now)
  unfolding stamp is_receipt text_eq
  finished_at-stamp h = ground (arith, c.unfinished, is_receipt-status, h)

  pub job_id-written_job : (written_job floats print_int now clock write_time d).job_id ≡ c.job_id
  unfolding event_to_job stamp_event as_non_empty_str
  job_id-written_job = ground (arith, job_id-stamp, c.plain_id)

  pub status-written_job :
      (written_job floats print_int now clock write_time d).status ≡ status_of c.status
  unfolding event_to_job stamp_event as_non_empty_str
  status-written_job = ground (arith, status-stamp, c.plain_status)

  pub finished_at-written_job :
      is_terminal (status_of c.status) ≡ true
      → (written_job floats print_int now clock write_time d).finished_at ≡ some now
  unfolding event_to_job stamp_event as_non_empty_str finished_time set_default as_optional_str
      is_terminal
  finished_at-written_job h =
      ground (arith, status-stamp, c.plain_status, finished_at-stamp, c.plain_now, h)
