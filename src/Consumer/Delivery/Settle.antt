-- ===== src/Consumer/Delivery/Settle.antt =====
-- Every delivery is settled exactly once or left to the broker, and an acknowledged one has left a
-- result or a dead letter behind.
use docrunr.Base.{
  ◌≡◌, refl, ◌⊎◌, inl, inr, true, false, not, Option, [], Text, if◌then◌else◌, Option-cases,
}
use docrunr.Handler.Request.{JobRequest}
use docrunr.JobStore.Event.{Value}
use docrunr.Consumer.Broker.{
  published_lifecycle, published_result, declared_llm_queue, published_llm, acked, Broker, Result,
  ok, raised, Step, pure, ◌>>◌, raise, call, note,
}
use docrunr.Consumer.Hoare.{
  Post, Triple, Triple-seq, Triple-catch, Triple-pure, Triple-raise, Triple-if, Triple-note,
  Triple-call, At,
}
use docrunr.Consumer.Delivery.{
  Payload, Outcome, Delivery, result_payload, llm_followup, maybe_publish_llm_followup,
  record_outcome, complete_delivery, persist_processing, record_terminal_dlq, dead_letter,
  handle_processing_exception, run_work, persisted, on_extraction_message,
}
use docrunr.Consumer.Conditions.{
  Unsettled, Answered, Settled, Failed, unsettled-Failed, acked-Settled, same_answer,
  publish-Answered, retry_or_letter-Settled, letter-Settled,
}

module _ {F : Type 0} (print_value : Value F → Text)
    (parse_payload : Text → Option (Payload F)) where
  followup-Answered :
      (outcome : Outcome F)
      → Triple Answered
          (maybe_publish_llm_followup print_value parse_payload outcome)
          Answered
          Failed
  unfolding maybe_publish_llm_followup
  followup-Answered outcome = elim (Option-cases (llm_followup print_value parse_payload outcome)) [
    | inl no_job ↦ rw (no_job, maybe_publish_llm_followup) (Triple-pure (λ o t h. h))
    | inr (job, due) ↦
        rw (due, maybe_publish_llm_followup)
          (Triple-catch {R = Answered} (call declared_llm_queue >> call (published_llm job))
            (λ exc. pure)
            (Triple-seq {Q = Answered} (call declared_llm_queue) (call (published_llm job))
              (Triple-call declared_llm_queue (same_answer declared_llm_queue (λ t h. h)))
              (Triple-call (published_llm job) (same_answer (published_llm job) (λ t h. h))))
            (λ e. Triple-pure (λ o t h. h)))
  ]

  record_outcome-Answered :
      (request : JobRequest) (outcome : Outcome F)
      → Triple Answered (record_outcome print_value parse_payload request outcome) Answered Failed
  unfolding record_outcome
  record_outcome-Answered request outcome =
      elim (Option-cases (result_payload print_value parse_payload outcome)) [
        | inl no_payload ↦ rw (no_payload, record_outcome) (Triple-note _ (λ o t h. h))
        | inr (payload, found) ↦ rw (found, record_outcome) (Triple-note _ (λ o t h. h))
      ]

  complete_delivery-Settled :
      (request : JobRequest) (outcome : Outcome F)
      → Triple Unsettled
          (complete_delivery print_value parse_payload request outcome)
          Settled
          Failed
  unfolding complete_delivery
  complete_delivery-Settled request outcome =
      let publish = call (published_result outcome.result_json) in
      let follow = maybe_publish_llm_followup print_value parse_payload outcome in
      let store = record_outcome print_value parse_payload request outcome in
      Triple-seq (publish >> follow >> store) (call acked)
        (Triple-seq (publish >> follow) store
          (Triple-seq {Q = Answered} publish follow
            (publish-Answered (published_result outcome.result_json) (λ t h. (h.0, h.1, refl)))
            (followup-Answered outcome))
          (record_outcome-Answered request outcome))
        acked-Settled

  dead_letter-Settled :
      (delivery : Delivery) (request : JobRequest) (exc : Text)
      → Triple
          (At true Failed)
          (dead_letter print_value parse_payload delivery request exc)
          Settled
          Failed
  unfolding dead_letter record_terminal_dlq
  dead_letter-Settled delivery request exc =
      letter-Settled delivery.queue_name exc delivery.body
        (record_terminal_dlq print_value parse_payload request exc) (Triple-note _ (λ o t h. h))

  handle_processing_exception-Settled :
      (delivery : Delivery) (request : JobRequest) (exc : Text)
      → Triple Failed
          (handle_processing_exception print_value parse_payload delivery request exc)
          Settled
          Failed
  unfolding handle_processing_exception
  handle_processing_exception-Settled delivery request exc =
      retry_or_letter-Settled (not delivery.redelivered)
        (dead_letter print_value parse_payload delivery request exc) exc
        (dead_letter-Settled delivery request exc)

  persist_processing-Unsettled :
      (delivery : Delivery) (request : JobRequest)
      → Triple Unsettled
          (persist_processing print_value parse_payload delivery request)
          Unsettled
          Failed
  unfolding persist_processing
  persist_processing-Unsettled delivery request =
      let publish = call (published_lifecycle request.job_id) in
      Triple-seq (if delivery.has_lifecycle_queue then publish else pure) (note _)
        (Triple-if delivery.has_lifecycle_queue publish pure
          (λ configured. Triple-call (published_lifecycle request.job_id) (record {
            carried = λ t h. h;
            unchanged = unsettled-Failed;
            closed = λ t h. unsettled-Failed false t h;
            closed_behind = λ t h. unsettled-Failed false t h;
          }))
          (λ absent. Triple-pure (λ o t h. h)))
        (Triple-note _ (λ o t h. h))

  run_work-Settled :
      (delivery : Delivery) (request : JobRequest) (work : Text ⊎ Outcome F)
      → Triple Unsettled (run_work print_value parse_payload delivery request work) Settled Failed
  unfolding run_work
  run_work-Settled delivery request (inl e) =
      Triple-catch (raise e)
        (handle_processing_exception print_value parse_payload delivery request)
        (Triple-raise e unsettled-Failed) (handle_processing_exception-Settled delivery request)
  run_work-Settled delivery request (inr outcome) =
      Triple-catch (complete_delivery print_value parse_payload request outcome)
        (handle_processing_exception print_value parse_payload delivery request)
        (complete_delivery-Settled request outcome)
        (handle_processing_exception-Settled delivery request)

  persisted-Post :
      (x : Result × Broker) (work : Step) (handler : Text → Step)
      → Post x Unsettled Failed
      → Triple Unsettled work Settled Failed
      → ((e : Text) → Triple Failed (handler e) Settled Failed)
      → Post (persisted print_value parse_payload x work handler) Settled Failed
  unfolding persisted
  persisted-Post (ok, b) work handler h w k = w.from b h
  persisted-Post (raised e, b) work handler h w k = (k e).from b h

  -- At a concurrency of 1, from an empty trace and whatever the broker answers and the job does, a
  -- delivery that ends without an exception has been settled once, by an acknowledgement or a
  -- requeue. One that ends by an exception has been settled at most once, and not at all if the
  -- channel is still open. Each acknowledgement comes behind a result or a dead letter that has been
  -- published. A call that raises may have gone out, but has then closed the channel.
  pub on_extraction_message-Settled :
      (delivery : Delivery) (request : JobRequest) (work : Text ⊎ Outcome F) (b : Broker)
      → b.trace ≡ []
      → Post
          (on_extraction_message print_value parse_payload delivery request work b)
          Settled
          Failed
  unfolding on_extraction_message
  on_extraction_message-Settled delivery request work b fresh =
      persisted-Post (persist_processing print_value parse_payload delivery request b)
        (run_work print_value parse_payload delivery request work)
        (handle_processing_exception print_value parse_payload delivery request)
        ((persist_processing-Unsettled delivery request).from b (rw fresh (refl, tt)))
        (run_work-Settled delivery request work)
        (handle_processing_exception-Settled delivery request)
