-- ===== src/Tests/Storing.antt =====
-- The job store at small batches; numbers stand for floats.
use docrunr.Base.{
  ℕ, ◌+◌, ◌≡◌, refl, true, none, some, List, [], ◌∷◌, ◌++◌, arith, codes, pos, All, text_eq,
}
use docrunr.JobStatus
use docrunr.JobStatus.{Status}
use docrunr.JobStore.Event.{PersistedJob, Event, Floats, none_value, str_value, int_value}
use docrunr.JobStore.Table.{Row, find_row}
use docrunr.JobStore.Flush.{Store, flush_jobs, flush_batch}
use docrunr.JobStore.Flush.Invariant.{IsValid, flush_batch-IsValid}
use docrunr.JobStore.Flush.Replay.{
  run_is_counted, replay_is_not_counted, second_receipt_counts_again,
}
use docrunr.JobStore.Flush.Batches.{flush_jobs-append}
use docrunr.JobStore.Writer.{
  Poll, event, stop_signal, empty_queue, new_writer, run, taken, concat, done,
}
use docrunr.JobStore.Writer.Order.{IsBatch, run-keeps, stop_writes_all}

abbrev counted : Floats ℕ
counted = record {
  zero_float = 0;
  add_float = λ a b. a + b;
  truncate = pos;
  of_int = λ n. 0;
  parse_float = λ t. none;
  print_float = λ x. [];
}

abbrev job : Status → PersistedJob ℕ
job status = record {
  job_id = codes "a";
  status = status;
  filename = codes "f";
  source_path = codes "s";
  markdown_path = none;
  chunks_path = none;
  total_tokens = pos 0;
  total_chars = pos 0;
  chunk_count = pos 0;
  duration_seconds = 2;
  error_text = none;
  received_at = codes "2024-01-01T00:00:00Z";
  finished_at = some (codes "2024-01-01T00:00:02Z");
  updated_at = none;
  mime_type = [];
  size_bytes = pos 0;
  priority = pos 0;
}

abbrev empty_store : Store ℕ
empty_store = record {
  rows = [];
  stats = record { processed = 0; failed = 0; total_duration = 0; last_job_at = none };
}

abbrev ok_row : Row ℕ
ok_row = record { job = job JobStatus.ok; replay_stats_suppress = 0 }

abbrev one_done : Store ℕ
one_done = record {
  rows = ok_row ∷ [];
  stats = record { processed = 1; failed = 0; total_duration = 2; last_job_at = none };
}

abbrev receipt_event : Event ℕ
receipt_event = record {
  job_id = str_value (codes " a ");
  status = str_value (codes "processing");
  filename = none_value;
  source_path = str_value (codes "input/a.pdf");
  markdown_path = none_value;
  chunks_path = none_value;
  total_tokens = int_value (pos 0);
  total_chars = int_value (pos 0);
  chunk_count = int_value (pos 0);
  duration_seconds = int_value (pos 0);
  error_text = none_value;
  received_at = none_value;
  finished_at = none_value;
  updated_at = none_value;
  mime_type = none_value;
  size_bytes = none_value;
  priority = int_value (pos 300);
}

empty_store-IsValid : IsValid empty_store
empty_store-IsValid = record { unique = tt; lifecycle = tt; counted = omega arith }

flush_batch-IsValid_example :
    IsValid (flush_batch counted (λ n. []) true ((codes "now", receipt_event) ∷ []) empty_store)
flush_batch-IsValid_example =
    flush_batch-IsValid counted (λ n. []) true ((codes "now", receipt_event) ∷ []) empty_store
      empty_store-IsValid

found_ok : find_row (codes "a") one_done.rows ≡ some ok_row
unfolding find_row text_eq
found_ok = refl

run_is_counted_example :
    let after =
      (flush_jobs counted
        (job JobStatus.processing ∷ job JobStatus.error ∷ [])
        empty_store).stats in
    (after.processed ≡ 0) × (after.failed ≡ 1)
unfolding find_row JobStatus.is_terminal
run_is_counted_example =
    run_is_counted counted (job JobStatus.processing) (job JobStatus.error) empty_store refl refl
      refl refl

replay_is_not_counted_example :
    let after =
      (flush_jobs counted (job JobStatus.processing ∷ job JobStatus.error ∷ []) one_done).stats in
    (after.processed ≡ 1) × (after.failed ≡ 0) × (after.last_job_at ≡ none)
unfolding JobStatus.is_terminal
replay_is_not_counted_example =
    replay_is_not_counted counted (job JobStatus.processing) (job JobStatus.error) one_done ok_row
      refl refl refl found_ok refl

second_receipt_counts_again_example :
    ((flush_jobs counted
        (job JobStatus.processing ∷ job JobStatus.ok ∷ [])
        one_done).stats.processed
      ≡ 1)
    × ((flush_jobs counted
          (job JobStatus.processing ∷ job JobStatus.processing ∷ job JobStatus.ok ∷ [])
          one_done).stats.processed
        ≡ 2)
second_receipt_counts_again_example =
    second_receipt_counts_again counted (job JobStatus.processing) (job JobStatus.processing)
      (job JobStatus.ok) one_done ok_row refl refl refl refl refl found_ok refl

abbrev first_jobs : List (PersistedJob ℕ)
first_jobs = job JobStatus.processing ∷ []

abbrev later_jobs : List (PersistedJob ℕ)
later_jobs = job JobStatus.ok ∷ []

flush_jobs-append_example :
    let one = flush_jobs counted (first_jobs ++ later_jobs) empty_store in
    let two = flush_jobs counted later_jobs (flush_jobs counted first_jobs empty_store) in
    (one.rows ≡ two.rows)
    × (one.stats.processed ≡ two.stats.processed)
    × (one.stats.failed ≡ two.stats.failed)
    × (one.stats.last_job_at ≡ two.stats.last_job_at)
flush_jobs-append_example = flush_jobs-append counted first_jobs later_jobs empty_store

abbrev polls : List (Poll ℕ)
polls = event 1 ∷ event 2 ∷ event 3 ∷ empty_queue ∷ event 4 ∷ []

three_batches :
    (run 2 (polls ++ stop_signal ∷ empty_queue ∷ []) (new_writer 2)).flushed
    ≡ (1 ∷ 2 ∷ []) ∷ (3 ∷ []) ∷ (4 ∷ []) ∷ []
unfolding run
three_batches = refl

run-keeps_example :
    let w = run 2 polls (new_writer 2) in
    (concat w.flushed ++ w.held ≡ taken 2 polls (new_writer 2)) × All (IsBatch 2) w.flushed
run-keeps_example = run-keeps 2 polls

stop_writes_all_example :
    let w = run 2 (polls ++ stop_signal ∷ empty_queue ∷ []) (new_writer 2) in
    (w.place ≡ done)
    × (concat w.flushed ≡ taken 2 (polls ++ stop_signal ∷ empty_queue ∷ []) (new_writer 2))
stop_writes_all_example = stop_writes_all 2 polls
