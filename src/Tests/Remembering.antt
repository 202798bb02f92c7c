-- ===== src/Tests/Remembering.antt =====
-- The memory of the worker's counters at two events of one job; numbers stand for floats.
use docrunr.Base.{
  ℕ, ◌+◌, ◌≡◌, refl, true, none, some, List, [], ◌∷◌, Text, codes, text_eq, ltb, strip, ℤ, pos, map,
  if◌then◌else◌,
}
use docrunr.JobStatus.{replay_stats_transition}
use docrunr.JobStore.Event.{Floats, str_value, int_value}
use docrunr.JobStore.Table.{find_row}
use docrunr.JobStore.Flush.{Store, flush_batch}
use docrunr.Http.Memory.{Dict, Memory, find_job, record_jobs}
use docrunr.Http.Memory.Stamped.{IsRecordable}
use docrunr.Http.Memory.Agrees.{Agrees}
use docrunr.Http.Memory.Batch.{queued, record_jobs-Agrees}

abbrev whole : Floats ℕ
whole = record {
  zero_float = 0;
  add_float = λ a b. a + b;
  truncate = pos;
  of_int = λ n. 0;
  parse_float = λ t. none;
  print_float = λ x. [];
}

abbrev no_digits : ℤ → Text
no_digits n = []

abbrev event_with : Text → Dict ℕ
unfolding text_eq
event_with status = λ k.
    if text_eq k (codes "job_id")
    then some (str_value (codes "a"))
    else if text_eq k (codes "status")
    then some (str_value status)
    else if text_eq k (codes "duration_seconds")
    then some (int_value (pos 2))
    else none

abbrev two_events : List (Text × Dict ℕ)
two_events =
    (codes "t1", event_with (codes "processing")) ∷ (codes "t2", event_with (codes "ok")) ∷ []

abbrev no_memory : Memory ℕ
no_memory = record {
  processed = 0;
  failed = 0;
  total_duration = 0;
  last_job_finished_at = none;
  jobs = [];
}

abbrev no_store : Store ℕ
no_store = record {
  rows = [];
  stats = record { processed = 0; failed = 0; total_duration = 0; last_job_at = none };
}

nothing-Agrees : Agrees whole no_digits (λ x. ltb 0 x) no_memory no_store
unfolding find_job find_row
nothing-Agrees = record { processed = refl; failed = refl; last = refl; jobs = λ k. refl }

receipt-IsRecordable : IsRecordable (codes "t1", event_with (codes "processing"))
unfolding event_with text_eq strip
receipt-IsRecordable = record {
  job_id = codes "a";
  status = codes "processing";
  named = refl;
  told = refl;
  unfinished = refl;
  plain_id = (refl, refl);
  plain_status = (refl, refl);
  plain_now = (refl, refl);
}

outcome-IsRecordable : IsRecordable (codes "t2", event_with (codes "ok"))
unfolding event_with text_eq strip
outcome-IsRecordable = record {
  job_id = codes "a";
  status = codes "ok";
  named = refl;
  told = refl;
  unfinished = refl;
  plain_id = (refl, refl);
  plain_status = (refl, refl);
  plain_now = (refl, refl);
}

record_jobs-Agrees_example :
    Agrees whole no_digits
      (λ x. ltb 0 x)
      (record_jobs whole no_digits (λ x. ltb 0 x) two_events no_memory)
      (flush_batch whole no_digits true
        (map (queued whole no_digits (λ x. ltb 0 x) (codes "c") (codes "w")) two_events)
        no_store)
record_jobs-Agrees_example =
    record_jobs-Agrees whole no_digits (λ x. ltb 0 x) (codes "c") (codes "w") two_events no_memory
      no_store (receipt-IsRecordable, (outcome-IsRecordable, tt)) nothing-Agrees

job_counted : (record_jobs whole no_digits (λ x. ltb 0 x) two_events no_memory).processed ≡ 1
unfolding record_jobs event_with text_eq replay_stats_transition
job_counted = refl
