-- ===== src/Tests/Serving.antt =====
-- The job table and the outbox at small inputs; numbers stand for floats.
use docrunr.Base.{ℕ, ◌+◌, ◌≡◌, refl, none, some, [], ◌∷◌, Text, codes, ℤ, pos, ◌⊎◌, drop, arith}
use docrunr.JobStore.Event.{Floats, none_value, str_value, int_value}
use docrunr.Api.Schema.{Database, NewJob, LifecyclePayload, ResultPayload}
use docrunr.Api.Repository.{
  new_row, new_item, create_job, finish_row, update_job, apply_lifecycle, apply_extraction_result,
  get_job,
}
use docrunr.Api.Repository.Rows.{IsConsistent}
use docrunr.Api.Repository.Keeps.{Change, created, extracted, Change-IsConsistent}
use docrunr.Api.Repository.Forward.{Advances, Change-Advances}
use docrunr.Api.Repository.Projection.{late_lifecycle_keeps_result}
use docrunr.Api.Outbox.{confirmed, pending_outbox, outbox_limit, unpublished, flush_outbox}
use docrunr.Api.Outbox.Sends.{Sends, flush_outbox-Sends}

abbrev whole_floats : Floats ℕ
whole_floats = record {
  zero_float = 0;
  add_float = λ a b. a + b;
  truncate = pos;
  of_int = λ n. 0;
  parse_float = λ t. none;
  print_float = λ x. [];
}

abbrev unprinted : ℤ → Text
unprinted n = []

abbrev upload : Text → NewJob
upload id = record {
  job_id = id;
  file_name = codes "f.pdf";
  file_size = 3;
  content_type = none;
  source_path = codes "s";
  priority = pos 0;
  llm_profile = none;
  body = codes "{}";
}

abbrev no_jobs : Database ℕ
no_jobs = record { jobs = []; outbox = []; next_id = 1 }

abbrev one_job : Database ℕ
one_job = record {
  jobs = new_row (upload (codes "a")) (codes "t0") ∷ [];
  outbox = new_item (upload (codes "a")) 1 ∷ [];
  next_id = 2;
}

abbrev success : ResultPayload ℕ
success = record {
  job_id = some (str_value (codes "a"));
  status = str_value (codes "ok");
  markdown_path = str_value (codes "m");
  chunks_path = str_value (codes "c");
  total_tokens = int_value (pos 5);
  total_chars = int_value (pos 20);
  chunk_count = int_value (pos 1);
  error_text = none_value;
}

abbrev receipt_message : LifecyclePayload ℕ
receipt_message = record {
  job_id = some (str_value (codes "a"));
  state = str_value (codes "processing");
  occurred_at = str_value (codes "t1");
}

abbrev one_result : Database ℕ
one_result = update_job (codes "a") (finish_row (codes "t2") success) one_job

creates : Change whole_floats unprinted no_jobs one_job
unfolding create_job
creates = created (upload (codes "a")) (codes "t0") refl

extracts :
    apply_extraction_result whole_floats unprinted success (codes "t2") one_job ≡ some one_result
unfolding apply_extraction_result
extracts = refl

no_jobs-IsConsistent : IsConsistent no_jobs
no_jobs-IsConsistent = record { unique = tt; times = tt; parents = tt; rising = omega arith }

one_job-IsConsistent : IsConsistent one_job
one_job-IsConsistent =
    Change-IsConsistent whole_floats unprinted no_jobs one_job creates no_jobs-IsConsistent

Change-IsConsistent_example : IsConsistent one_result
Change-IsConsistent_example =
    Change-IsConsistent whole_floats unprinted one_job one_result
      (extracted success (codes "t2") extracts) one_job-IsConsistent

Change-Advances_example : Advances (get_job (codes "a") one_job) (get_job (codes "a") one_result)
Change-Advances_example =
    Change-Advances whole_floats unprinted (codes "a") one_job one_result
      (extracted success (codes "t2") extracts)

late_lifecycle_keeps_result_example :
    (apply_lifecycle whole_floats unprinted receipt_message (codes "t3") one_result
      ≡ some one_result)
    ⊎ (apply_lifecycle whole_floats unprinted receipt_message (codes "t3") one_result ≡ none)
late_lifecycle_keeps_result_example =
    late_lifecycle_keeps_result whole_floats unprinted success receipt_message (codes "t2")
      (codes "t3") one_job one_result extracts refl

flush_outbox-Sends_example :
    Sends
      (pending_outbox outbox_limit one_job)
      (drop outbox_limit (unpublished one_job.outbox))
      []
      (flush_outbox (confirmed (codes "t1") ∷ []) one_job)
flush_outbox-Sends_example =
    flush_outbox-Sends (confirmed (codes "t1") ∷ []) one_job one_job-IsConsistent
