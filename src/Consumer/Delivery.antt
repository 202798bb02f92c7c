-- ===== src/Consumer/Delivery.antt =====
-- What worker/src/docrunr_worker/consumer.py does with one delivery: `_maybe_publish_llm_followup`,
-- `_complete_delivery`, `_persist_processing`, `_record_terminal_dlq`,
-- `_handle_processing_exception`, and `_on_extraction_message` at a concurrency of 1. JSON is a
-- library: a payload is given by its fields, and `parse_payload` reads `result_json`.
pub mod Settle
use docrunr.Base.{
  ℕ, Bool, true, false, not, ◌||◌, Option, none, some, ◌⊎◌, inl, inr, [], Text, codes, is_empty,
  strip, if◌then◌else◌,
}
use docrunr.JobStatus.{Status, is_ok}
use docrunr.JobStatus
use docrunr.JobStore.Event.{Value, str_value}
use docrunr.Messages.Priority.{validate_extraction_job_priority_value}
use docrunr.Handler.Request.{JobRequest}
use docrunr.Consumer.Broker.{
  LlmJob, JobEvent, published_lifecycle, published_result, declared_llm_queue, published_llm,
  published_dlq, recorded, recorded_payload, acked, nacked, Step, ◌>>◌, pure, raise, catch, if_open,
  call, note, Broker, Result, ok, raised,
}

-- The fields of a result that the consumer reads. `none` is a missing key.
pub record Payload (F : Type 0) : Type 0 where
  pub job_id : Option (Value F)
  pub filename : Option (Value F)
  pub source_path : Option (Value F)
  pub llm_profile : Value F
  pub chunks_path : Value F
  pub priority : Value F

-- `ExtractionOutcome`; `result` is `none` where the dictionary is empty.
pub record Outcome (F : Type 0) : Type 0 where
  pub result_json : Text
  pub result : Option (Payload F)
  pub status : Status

-- The delivery and what the settings say of it.
pub record Delivery : Type 0 where
  pub queue_name : Text
  pub body : Text
  pub redelivered : Bool
  pub has_lifecycle_queue : Bool

-- `isinstance(value, str) and value.strip()`
abbrev non_blank : {F : Type 0} → Value F → Option Text
non_blank (str_value text) = if is_empty (strip text) then none else some text
non_blank _ = none

abbrev or_zero : Option ℕ → ℕ
or_zero none = 0
or_zero (some n) = n

module _ {F : Type 0} (print_value : Value F → Text)
    (parse_payload : Text → Option (Payload F)) where
  -- `str(parsed.get(key, default))`
  unfoldable pub printed_or : Option (Value F) → Text → Text
  printed_or none default = default
  printed_or (some value) default = print_value value

  -- `_result_payload`
  unfoldable pub result_payload : Outcome F → Option (Payload F)
  result_payload outcome = elim outcome.result [
    | some payload ↦ some payload
    | none ↦ parse_payload outcome.result_json
  ]

  -- The follow-up job of a payload, if its profile and its chunks path are there.
  unfoldable pub payload_followup : Payload F → Option LlmJob
  unfolding printed_or strip validate_extraction_job_priority_value
  payload_followup payload = elim (non_blank payload.llm_profile) [
    | none ↦ none
    | some profile ↦ elim (non_blank payload.chunks_path) [
      | none ↦ none
      | some chunks_path ↦ some (record {
        extract_job_id = printed_or payload.job_id [];
        filename = printed_or payload.filename (codes "unknown");
        source_path = printed_or payload.source_path [];
        chunks_path = chunks_path;
        llm_profile = strip profile;
        priority = or_zero (validate_extraction_job_priority_value payload.priority);
      })
    ]
  ]

  unfoldable pub llm_followup : Outcome F → Option LlmJob
  unfolding result_payload payload_followup
  llm_followup outcome = elim (result_payload outcome) [
    | none ↦ none
    | some payload ↦ if is_ok outcome.status then payload_followup payload else none
  ]

  -- A failure of the declaration or of the publication is logged and passed over.
  pub maybe_publish_llm_followup : Outcome F → Step
  maybe_publish_llm_followup outcome = elim (llm_followup outcome) [
    | none ↦ pure
    | some job ↦ catch (call declared_llm_queue >> call (published_llm job)) (λ exc. pure)
  ]

  event_of : JobRequest → Status → Option Text → JobEvent
  event_of request status error_text = record {
    job_id = request.job_id;
    status = status;
    filename = request.filename;
    source_path = request.source_path;
    error_text = error_text;
    priority = request.priority;
  }

  -- The request is what `parse_job_request_from_body` gives for the body.
  record_outcome : JobRequest → Outcome F → Step
  unfolding event_of
  record_outcome request outcome = elim (result_payload outcome) [
    | some payload ↦ note recorded_payload
    | none ↦ note (
        recorded (
          event_of request JobStatus.error
            (some (codes "Worker returned a non-object JSON result"))))
  ]

  pub complete_delivery : JobRequest → Outcome F → Step
  unfolding maybe_publish_llm_followup record_outcome
  complete_delivery request outcome =
      call (published_result outcome.result_json)
      >> maybe_publish_llm_followup outcome
      >> record_outcome request outcome
      >> call acked

  pub persist_processing : Delivery → JobRequest → Step
  unfolding event_of
  persist_processing delivery request =
      (if delivery.has_lifecycle_queue then call (published_lifecycle request.job_id) else pure)
      >> note (recorded (event_of request JobStatus.processing none))

  record_terminal_dlq : JobRequest → Text → Step
  unfolding event_of
  record_terminal_dlq request reason =
      note (recorded (event_of request JobStatus.error (some reason)))

  dead_letter : Delivery → JobRequest → Text → Step
  unfolding record_terminal_dlq
  dead_letter delivery request exc =
      call (published_dlq delivery.queue_name exc delivery.body)
      >> record_terminal_dlq request exc
      >> call acked

  pub handle_processing_exception : Delivery → JobRequest → Text → Step
  unfolding dead_letter
  handle_processing_exception delivery request exc =
      if_open
        (if not delivery.redelivered
          then call nacked
          else catch (dead_letter delivery request exc) (λ e. if_open (call nacked) (raise e)))
        (raise exc)

  -- `work` is the call of `handle_extract_job`: its outcome, or what it raises.
  run_work : Delivery → JobRequest → (Text ⊎ Outcome F) → Step
  unfolding complete_delivery handle_processing_exception
  run_work delivery request work =
      catch (elim work [ inl e ↦ raise e | inr outcome ↦ complete_delivery request outcome ])
        (handle_processing_exception delivery request)

  -- `_on_extraction_message`: a receipt that fails ends the delivery by the exception's handler.
  persisted : Result × Broker → Step → (Text → Step) → Result × Broker
  persisted (ok, b) work handler = work b
  persisted (raised e, b) work handler = handler e b

  unfoldable pub on_extraction_message : Delivery → JobRequest → (Text ⊎ Outcome F) → Step
  unfolding persist_processing run_work handle_processing_exception persisted
  on_extraction_message delivery request work b =
      persisted (persist_processing delivery request b) (run_work delivery request work)
        (handle_processing_exception delivery request)
