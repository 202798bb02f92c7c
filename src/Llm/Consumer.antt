-- ===== src/Llm/Consumer.antt =====
-- What worker-llm/src/docrunr_worker_llm/consumer.py does with one delivery: `_complete_delivery`,
-- `_persist_processing`, `_record_terminal_dlq`, `_handle_processing_exception`, and
-- `_on_llm_message` at a concurrency of 1. The channel is that of the extraction worker's model;
-- its `published_result` and `published_dlq` go to the queues of this worker.
pub mod Settle
use docrunr.Base.{
  Bool, true, false, not, ◌||◌, Option, none, some, ◌⊎◌, inl, inr, [], Text, codes, if◌then◌else◌,
}
use docrunr.JobStatus
use docrunr.JobStatus.{Status}
use docrunr.Consumer.Broker.{
  LlmJobEvent, published_result, published_dlq, recorded_llm, recorded_payload, acked, nacked, Step,
  ◌>>◌, raise, catch, if_open, call, note,
}
use docrunr.Llm.Request.{LlmMessage, LlmJobRequest, parse_job_request_from_body}
use docrunr.Llm.Embeddings.{ArtifactData}
use docrunr.Llm.Handler.{LlmOutcome, handle_llm_job}

-- `LlmOutcome` as the consumer reads it; `has_result` says that its dictionary is not empty.
pub record Reply : Type 0 where
  pub result_json : Text
  pub has_result : Bool

pub record LlmDelivery : Type 0 where
  pub queue_name : Text
  pub body : Text
  pub redelivered : Bool

-- `parses` says whether `json.loads` gives an object. The request is what
-- `parse_job_request_from_body` gives for the body.
module _ (parses : Text → Bool) where
  event_of : LlmJobRequest → Status → Text → Option Text → LlmJobEvent
  event_of request status llm_profile error_text = record {
    job_id = request.job_id;
    status = status;
    filename = request.filename;
    source_path = request.source_path;
    chunks_path = request.chunks_path;
    llm_profile = llm_profile;
    error_text = error_text;
  }

  has_payload : Reply → Bool
  has_payload reply = if reply.has_result then true else parses reply.result_json

  record_outcome : LlmJobRequest → Reply → Step
  unfolding event_of has_payload
  record_outcome request reply =
      if has_payload reply
      then note recorded_payload
      else note (
          recorded_llm (
            event_of request JobStatus.error []
              (some (codes "Worker returned a non-object JSON result"))))

  complete_delivery : LlmJobRequest → Reply → Step
  unfolding record_outcome
  complete_delivery request reply =
      call (published_result reply.result_json) >> record_outcome request reply >> call acked

  persist_processing : LlmJobRequest → Step
  unfolding event_of
  persist_processing request =
      note (recorded_llm (event_of request JobStatus.processing request.llm_profile none))

  record_terminal_dlq : LlmJobRequest → Text → Step
  unfolding event_of
  record_terminal_dlq request reason =
      note (recorded_llm (event_of request JobStatus.error [] (some reason)))

  dead_letter : LlmDelivery → LlmJobRequest → Text → Step
  unfolding record_terminal_dlq
  dead_letter delivery request exc =
      call (published_dlq delivery.queue_name exc delivery.body)
      >> record_terminal_dlq request exc
      >> call acked

  handle_processing_exception : LlmDelivery → LlmJobRequest → Text → Step
  unfolding dead_letter
  handle_processing_exception delivery request exc =
      if_open
        (if not delivery.redelivered
          then call nacked
          else catch (dead_letter delivery request exc) (λ e. if_open (call nacked) (raise e)))
        (raise exc)

  -- `work` is the call of `handle_llm_job`: its reply, or what it raises.
  run_work : LlmDelivery → LlmJobRequest → (Text ⊎ Reply) → Step
  unfolding complete_delivery handle_processing_exception
  run_work delivery request work =
      catch (elim work [ inl e ↦ raise e | inr reply ↦ complete_delivery request reply ])
        (handle_processing_exception delivery request)

  -- The receipt is recorded in front of the `try`.
  unfoldable pub on_llm_message : LlmDelivery → LlmJobRequest → (Text ⊎ Reply) → Step
  unfolding persist_processing run_work
  on_llm_message delivery request work =
      persist_processing request >> run_work delivery request work

module _ {F V : Type 0} (parses : Text → Bool) (decode : Text → Option (LlmMessage F))
    (sha256_hex : Text → Text) (embed : Text → Text → Text ⊎ ArtifactData V)
    (dumps : LlmOutcome → Text) where
  -- The whole delivery, with the job that it runs. The dictionary of an outcome is never empty.
  unfoldable pub take_llm_message : LlmDelivery → Text → Text → Step
  unfolding on_llm_message parse_job_request_from_body handle_llm_job
  take_llm_message delivery bad_message delivery_id =
      on_llm_message parses delivery
        (parse_job_request_from_body decode sha256_hex delivery.body delivery_id)
        (inr (record {
          result_json =
              dumps (handle_llm_job decode sha256_hex embed bad_message delivery.body delivery_id);
          has_result = true;
        }))
