-- ===== src/Llm/Consumer/Settle.antt =====
-- Every delivery to the worker for embeddings is settled once or left to the broker, and what is
-- acknowledged has left a result or a dead letter.
use docrunr.Base.{true, ◌≡◌, refl, ◌⊎◌, inl, inr, Bool, not, Option, [], Text}
use docrunr.Consumer.Broker.{published_result, acked, Broker, ◌>>◌, raise, call, note}
use docrunr.Consumer.Hoare.{
  Post, At, Triple, Triple-seq, Triple-catch, Triple-raise, Triple-if, Triple-note,
}
use docrunr.Consumer.Conditions.{
  Unsettled, Answered, Settled, acked-Settled, Failed, unsettled-Failed, publish-Answered,
  letter-Settled, retry_or_letter-Settled,
}
use docrunr.Llm.Request.{LlmMessage, LlmJobRequest, parse_job_request_from_body}
use docrunr.Llm.Embeddings.{ArtifactData}
use docrunr.Llm.Handler.{LlmOutcome, handle_llm_job}
use docrunr.Llm.Consumer.{
  Reply, LlmDelivery, has_payload, record_outcome, complete_delivery, persist_processing,
  record_terminal_dlq, dead_letter, handle_processing_exception, run_work, on_llm_message,
  take_llm_message,
}

module _ (parses : Text → Bool) where
  record_outcome-Answered :
      (request : LlmJobRequest) (reply : Reply)
      → Triple Answered (record_outcome parses request reply) Answered Failed
  unfolding record_outcome
  record_outcome-Answered request reply =
      Triple-if (has_payload parses reply) (note _) (note _) (λ there. Triple-note _ (λ o t h. h))
        (λ missing. Triple-note _ (λ o t h. h))

  complete_delivery-Settled :
      (request : LlmJobRequest) (reply : Reply)
      → Triple Unsettled (complete_delivery parses request reply) Settled Failed
  unfolding complete_delivery
  complete_delivery-Settled request reply =
      let publish = call (published_result reply.result_json) in
      let store = record_outcome parses request reply in
      Triple-seq (publish >> store) (call acked)
        (Triple-seq {Q = Answered} publish store
          (publish-Answered (published_result reply.result_json) (λ t h. (h.0, h.1, refl)))
          (record_outcome-Answered request reply))
        acked-Settled

  dead_letter-Settled :
      (delivery : LlmDelivery) (request : LlmJobRequest) (exc : Text)
      → Triple (At true Failed) (dead_letter parses delivery request exc) Settled Failed
  unfolding dead_letter record_terminal_dlq
  dead_letter-Settled delivery request exc =
      letter-Settled delivery.queue_name exc delivery.body (record_terminal_dlq parses request exc)
        (Triple-note _ (λ o t h. h))

  handle_processing_exception-Settled :
      (delivery : LlmDelivery) (request : LlmJobRequest) (exc : Text)
      → Triple Failed (handle_processing_exception parses delivery request exc) Settled Failed
  unfolding handle_processing_exception
  handle_processing_exception-Settled delivery request exc =
      retry_or_letter-Settled (not delivery.redelivered) (dead_letter parses delivery request exc)
        exc (dead_letter-Settled delivery request exc)

  run_work-Settled :
      (delivery : LlmDelivery) (request : LlmJobRequest) (work : Text ⊎ Reply)
      → Triple Unsettled (run_work parses delivery request work) Settled Failed
  unfolding run_work
  run_work-Settled delivery request (inl e) =
      Triple-catch (raise e) (handle_processing_exception parses delivery request)
        (Triple-raise e unsettled-Failed) (handle_processing_exception-Settled delivery request)
  run_work-Settled delivery request (inr reply) =
      Triple-catch (complete_delivery parses request reply)
        (handle_processing_exception parses delivery request)
        (complete_delivery-Settled request reply)
        (handle_processing_exception-Settled delivery request)

  on_llm_message-Settled :
      (delivery : LlmDelivery) (request : LlmJobRequest) (work : Text ⊎ Reply)
      → Triple Unsettled (on_llm_message parses delivery request work) Settled Failed
  unfolding on_llm_message persist_processing
  on_llm_message-Settled delivery request work =
      Triple-seq {Q = Unsettled} (persist_processing parses request)
        (run_work parses delivery request work) (Triple-note _ (λ o t h. h))
        (run_work-Settled delivery request work)

module _ {F V : Type 0} (parses : Text → Bool) (decode : Text → Option (LlmMessage F))
    (sha256_hex : Text → Text) (embed : Text → Text → Text ⊎ ArtifactData V)
    (dumps : LlmOutcome → Text) where
  -- At a concurrency of 1, from an empty trace and whatever the message, the embedding and the
  -- answers of the broker, a delivery to the worker for embeddings that ends without an exception
  -- has been settled once, by an acknowledgement or a requeue. One that ends by an exception has
  -- been settled at most once, and not at all if the channel is still open. Each acknowledgement
  -- comes behind a result or a dead letter that has been published. A call that raises may have gone
  -- out, but has then closed the channel.
  pub take_llm_message-Settled :
      (delivery : LlmDelivery) (bad_message delivery_id : Text) (b : Broker)
      → b.trace ≡ []
      → Post
          (take_llm_message parses decode sha256_hex embed dumps delivery bad_message delivery_id b)
          Settled
          Failed
  unfolding take_llm_message
  take_llm_message-Settled delivery bad_message delivery_id b fresh =
      let job = handle_llm_job decode sha256_hex embed bad_message delivery.body delivery_id in
      (on_llm_message-Settled parses delivery
          (parse_job_request_from_body decode sha256_hex delivery.body delivery_id)
          (inr (record { result_json = dumps job; has_result = true }))).from
        b (rw fresh (refl, tt))
