-- ===== src/Llm/Handler/Followup.antt =====
-- From an extraction to its embeddings: the job that the extraction worker publishes, as the worker
-- for embeddings takes it.
use docrunr.Base.{
  ℕ, ◌≡◌, refl, true, false, leb, pos, Option, some, ◌⊎◌, inl, inr, Text, is_empty, strip,
}
use docrunr.JobStatus.{is_ok}
use docrunr.JobStore.Event.{Value, str_value, int_value}
use docrunr.Consumer.Broker.{LlmJob}
use docrunr.Consumer.Delivery.{
  Payload, Outcome, result_payload, payload_followup, printed_or, llm_followup,
}
use docrunr.Messages.Priority.{validate_extraction_job_priority_value, job_queue_max_priority}
use docrunr.Llm.Request.{LlmMessage, LlmJobRequest, parse_llm_message-written, parse_llm_request}
use docrunr.Llm.Embeddings.{ArtifactData}
use docrunr.Llm.Handler.{failed, succeeded, handle_llm_job}

-- The fields of the published object, behind its fresh id.
abbrev pub message_of : {F : Type 0} → Text → LlmJob → LlmMessage F
message_of job_id job = record {
  job_id = str_value job_id;
  extract_job_id = str_value job.extract_job_id;
  filename = str_value job.filename;
  source_path = str_value job.source_path;
  chunks_path = str_value job.chunks_path;
  llm_profile = str_value job.llm_profile;
}

abbrev pub request_of : Text → LlmJob → LlmJobRequest
request_of job_id job = record {
  job_id = job_id;
  extract_job_id = job.extract_job_id;
  filename = job.filename;
  source_path = job.source_path;
  chunks_path = job.chunks_path;
  llm_profile = job.llm_profile;
}

-- The job that a payload leads to, by its fields.
abbrev pub job_of : Text → Text → Text → Text → Text → ℕ → LlmJob
job_of extract_id filename source_path chunks_path llm_profile priority = record {
  extract_job_id = extract_id;
  filename = filename;
  source_path = source_path;
  chunks_path = chunks_path;
  llm_profile = strip llm_profile;
  priority = priority;
}

-- A payload of texts, as the worker's own results are.
abbrev pub payload_with : {F : Type 0} → Text → Text → Text → Text → Text → ℕ → Payload F
payload_with extract_id filename source_path chunks_path llm_profile priority = record {
  job_id = some (str_value extract_id);
  filename = some (str_value filename);
  source_path = some (str_value source_path);
  llm_profile = str_value llm_profile;
  chunks_path = str_value chunks_path;
  priority = int_value (pos priority);
}

module _ {F G V : Type 0} (print_value : Value F → Text) (parse_payload : Text → Option (Payload F))
    (decode : Text → Option (LlmMessage G)) (sha256_hex : Text → Text)
    (embed : Text → Text → Text ⊎ ArtifactData V)
    (printed : (t : Text) → print_value (str_value t) ≡ t)
    (extract_id filename source_path chunks_path llm_profile : Text) (priority : ℕ) where
  payload_followup-payload_with :
      leb priority job_queue_max_priority ≡ true
      → is_empty (strip chunks_path) ≡ false
      → is_empty (strip llm_profile) ≡ false
      → payload_followup print_value parse_payload
          (payload_with extract_id filename source_path chunks_path llm_profile priority)
        ≡ some (job_of extract_id filename source_path chunks_path llm_profile priority)
  unfolding payload_followup validate_extraction_job_priority_value printed_or
  payload_followup-payload_with small chunks profile =
      rw
        (
          profile,
          payload_followup,
          chunks,
          small,
          printed extract_id,
          printed filename,
          printed source_path,
        )
        refl

  llm_followup-payload :
      (outcome : Outcome F)
      → is_ok outcome.status ≡ true
      → result_payload print_value parse_payload outcome
        ≡ some (payload_with extract_id filename source_path chunks_path llm_profile priority)
      → leb priority job_queue_max_priority ≡ true
      → is_empty (strip chunks_path) ≡ false
      → is_empty (strip llm_profile) ≡ false
      → llm_followup print_value parse_payload outcome
        ≡ some (job_of extract_id filename source_path chunks_path llm_profile priority)
  unfolding llm_followup
  llm_followup-payload outcome good named small chunks profile =
      rw (named, llm_followup, good) (payload_followup-payload_with small chunks profile)

  -- `str` gives a text back as it is. If an extraction is `ok` and its result names its job, a file, a source path, its chunks, a
  -- profile and a priority up to 255, of which the job, the source path, the chunks and the profile
  -- are not blank, then it leads to a follow-up job with just these, the profile without blanks
  -- around it. If the message of this job, with an id that is not blank, is read back as it was
  -- written, then the worker for embeddings embeds the chunks that the result names, with its
  -- profile, for this job, and fails only if the embedding does.
  pub handle_llm_job-llm_followup :
      (outcome : Outcome F) (job_id bad_message body delivery_id : Text)
      → is_ok outcome.status ≡ true
      → result_payload print_value parse_payload outcome
        ≡ some (payload_with extract_id filename source_path chunks_path llm_profile priority)
      → leb priority job_queue_max_priority ≡ true
      → is_empty (strip chunks_path) ≡ false
      → is_empty (strip llm_profile) ≡ false
      → is_empty (strip job_id) ≡ false
      → is_empty (strip extract_id) ≡ false
      → is_empty (strip source_path) ≡ false
      → let job = job_of extract_id filename source_path chunks_path llm_profile priority in
        (decode body ≡ some (message_of job_id job))
        → (llm_followup print_value parse_payload outcome ≡ some job)
          × (handle_llm_job decode sha256_hex embed bad_message body delivery_id
              ≡ (elim (embed chunks_path (strip llm_profile)) [
                | inl exc ↦ failed (request_of job_id job) exc
                | inr artifact ↦ succeeded (request_of job_id job) artifact
              ]))
  unfolding handle_llm_job parse_llm_request
  handle_llm_job-llm_followup outcome job_id bad_message body delivery_id good named small chunks
        profile id_filled extract_filled source_filled read =
      let job = job_of extract_id filename source_path chunks_path llm_profile priority in
      let parsed =
        parse_llm_message-written G (request_of job_id job) id_filled extract_filled source_filled
          chunks in
      (
        llm_followup-payload outcome good named small chunks profile,
        rw (read, handle_llm_job, parse_llm_request, parsed) refl,
      )
