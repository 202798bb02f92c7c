-- ===== src/Handler/Request/RoundTrip.antt =====
-- The worker reads the request that the API wrote.
use mathlib.Core.Path.{subst}
use docrunr.Base.{
  ℕ, ◌≤◌, ◌≡◌, refl, false, Option, some, [], ◌∷◌, Text, codes, is_empty, strip, pos, if◌then◌else◌,
  arith,
}
use docrunr.JobStore.Event.{Value, int_value}
use docrunr.Messages.Priority.{
  validate_extraction_job_priority_value, parse_extraction_job_priority, validate-le,
  job_queue_max_priority,
}
use docrunr.Handler.Request.{
  Message, JobRequest, parse_job_request, parse_message, parse_extraction_request,
  parse_job_request_from_body, require_non_empty_str, profile_of, filename_of,
}
use docrunr.Messages.Payload.{payload_of, profile_value, job_payload_dict}

-- What the worker is to make of the arguments of `job_payload_dict`.
abbrev pub request_of : Text → Text → Text → ℕ → Text → JobRequest
request_of job_id filename source_path n llm_profile = record {
  job_id = job_id;
  filename = if is_empty filename then codes "unknown" else filename;
  source_path = source_path;
  priority = n;
  llm_profile = strip llm_profile;
}

module _ (F : Type 0) where
  -- A legal priority is itself when it is read again.
  validate-valid :
      (n : ℕ)
      → n ≤ job_queue_max_priority
      → validate_extraction_job_priority_value {F = F} (int_value (pos n)) ≡ some n
  unfolding validate_extraction_job_priority_value
  validate-valid n small = ground arith

module _ (F : Type 0) where
  profile_of-profile_value : (t : Text) → profile_of {F = F} (profile_value t) ≡ strip t
  unfolding profile_of strip
  profile_of-profile_value [] = refl
  profile_of-profile_value (c ∷ cs) = refl

  -- The payload as it is written, read as a request.
  parse_message-payload :
      (job_id filename source_path llm_profile : Text) (n : ℕ)
      → is_empty (strip job_id) ≡ false
      → is_empty (strip source_path) ≡ false
      → n ≤ job_queue_max_priority
      → parse_message (payload_of {F = F} job_id filename source_path n llm_profile)
        ≡ some (request_of job_id filename source_path n llm_profile)
  unfolding parse_message parse_job_request require_non_empty_str filename_of
      parse_extraction_job_priority
  parse_message-payload job_id filename source_path llm_profile n id_filled source_filled small =
      rw (validate-valid F n small, id_filled, source_filled, profile_of-profile_value llm_profile)
        refl

module _ {F : Type 0} (decode : Text → Option (Message F)) (sha256_hex : Text → Text) where
  from_message :
      (body delivery_id : Text) (msg : Message F) (r : JobRequest)
      → decode body ≡ some msg
      → parse_message msg ≡ some r
      → parse_job_request_from_body decode sha256_hex body delivery_id ≡ r
  unfolding parse_job_request_from_body
  from_message body delivery_id msg r read parsed =
      rw (read, parse_job_request_from_body, parse_extraction_request, parsed) refl

  -- If a payload is written for a job id and a source path that are not blank, and `decode` reads
  -- it back from the body, then the worker's request has this id, file name, source path and
  -- profile and the priority that was given, with "unknown" for an empty file name and with the
  -- profile stripped.
  pub parse_job_request_from_body-job_payload_dict :
      (job_id filename source_path llm_profile body delivery_id : Text) (priority : Value F) (n : ℕ)
      (msg : Message F)
      → is_empty (strip job_id) ≡ false
      → is_empty (strip source_path) ≡ false
      → validate_extraction_job_priority_value priority ≡ some n
      → job_payload_dict job_id filename source_path priority llm_profile ≡ some msg
      → decode body ≡ some msg
      → parse_job_request_from_body decode sha256_hex body delivery_id ≡ record {
        job_id = job_id;
        filename = if is_empty filename then codes "unknown" else filename;
        source_path = source_path;
        priority = n;
        llm_profile = strip llm_profile;
      }
  unfolding job_payload_dict
  parse_job_request_from_body-job_payload_dict job_id filename source_path llm_profile body
        delivery_id priority n msg id_filled source_filled valid written read =
      let same : payload_of job_id filename source_path n llm_profile ≡ msg =
        cc (rw (valid, job_payload_dict) at written) in
      let parsed =
        parse_message-payload F job_id filename source_path llm_profile n id_filled source_filled
          (validate-le priority valid) in
      from_message body delivery_id msg _ read (
        subst (λ m. parse_message m ≡ some (request_of job_id filename source_path n llm_profile))
          same parsed)
