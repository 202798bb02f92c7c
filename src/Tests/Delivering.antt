-- ===== src/Tests/Delivering.antt =====
-- Messages and deliveries at concrete inputs.
use docrunr.Base.{
  ◌==◌, text_eq, List, false, ℕ, ◌≡◌, refl, inr, true, Option, none, some, [], ◌∷◌, Text, codes,
  decimal,
}
use docrunr.JobStatus
use docrunr.Messages.Priority.{parse_upload_priority_query}
use docrunr.Messages.Priority.Query.{parse_upload_priority_query-decimal}
use docrunr.Handler.Request.{
  Message, JobRequest, parse_job_request_from_body, IsUsable, parse_job_request_from_body-IsUsable,
}
use docrunr.Handler.Artifacts.{OutputArtifacts, build_artifacts}
use docrunr.Consumer.Broker.{Broker, returns, closes_behind}
use docrunr.Consumer.Hoare.{Post}
use docrunr.Consumer.Delivery.{Outcome, Delivery, on_extraction_message}
use docrunr.Consumer.Pending.{
  Event, submitted, looked, acted, ran_callback, new_pool, run_events, stop,
}
use docrunr.Consumer.Pending.Once.{Accounted, run_events-Accounted}
use docrunr.Consumer.Pending.Drain.{AreQuiet, stop_drains}
use docrunr.Consumer.Conditions.{Failed, Settled}
use docrunr.Consumer.Delivery.Settle.{on_extraction_message-Settled}

parse_upload_priority_query-decimal_example :
    parse_upload_priority_query (some (decimal 300)) ≡ none
parse_upload_priority_query-decimal_example = parse_upload_priority_query-decimal 300

abbrev decode_nothing : Text → Option (Message ℕ)
decode_nothing body = none

abbrev same_text : Text → Text
same_text t = t

abbrev request : JobRequest
request = parse_job_request_from_body decode_nothing same_text (codes "junk") (codes "7")

parse_job_request_from_body-IsUsable_example : IsUsable request
parse_job_request_from_body-IsUsable_example =
    parse_job_request_from_body-IsUsable decode_nothing same_text (codes "junk") (codes "7")

abbrev outcome : Outcome ℕ
outcome = record { result_json = codes "[]"; result = none; status = JobStatus.ok }

abbrev delivery : Delivery
delivery = record {
  queue_name = codes "docrunr.jobs";
  body = codes "junk";
  redelivered = true;
  has_lifecycle_queue = true;
}

-- The receipt is published, and the connection breaks behind the publication of the result.
abbrev broker : Broker
broker = record {
  is_open = true;
  answers = returns ∷ closes_behind (codes "gone") ∷ [];
  trace = [];
}

on_extraction_message-Settled_example :
    Post
      (on_extraction_message (λ v. []) (λ t. none) delivery request (inr outcome) broker)
      Settled
      Failed
on_extraction_message-Settled_example =
    on_extraction_message-Settled (λ v. []) (λ t. none) delivery request (inr outcome) broker refl

-- Three deliveries: one comes back to the broker's thread, one finds its channel closed, and one
-- is still at work when the consumer stops.
abbrev three_deliveries : List (Event Text)
three_deliveries =
    submitted (codes "a")
    ∷ submitted (codes "b")
    ∷ looked 1 false
    ∷ looked 0 false
    ∷ acted 1 (record { channel_open = false; connection_open = true; schedules = true })
    ∷ acted 0 (record { channel_open = true; connection_open = true; schedules = true })
    ∷ submitted (codes "c")
    ∷ ran_callback false
    ∷ []

run_events-Accounted_example : Accounted (run_events three_deliveries new_pool)
run_events-Accounted_example = run_events-Accounted three_deliveries

stop_drains_example :
    let before = run_events three_deliveries (new_pool {D = Text}) in
    let r = stop (λ f. f == 7) before in
    (AreQuiet (λ f. f == 7) before.pending → r.0 ≡ false)
    × (r.0 ≡ false → r.1.pending ≡ [])
    × Accounted r.1
stop_drains_example = stop_drains (λ f. f == 7) three_deliveries

three_deliveries_end :
    (stop (λ f. f == 7) (run_events three_deliveries new_pool)).1.finished ≡ 0 ∷ 2 ∷ []
unfolding run_events stop
three_deliveries_end = refl

-- Where the completion of the last one raises, the exception leaves `stop`.
last_raises : (stop (λ f. f == 2) (run_events three_deliveries new_pool)).0 ≡ true
unfolding run_events stop
last_raises = refl

abbrev stored : OutputArtifacts
stored = record {
  stem = codes "a";
  markdown_path = codes "output/2024/a.md";
  chunks_path = codes "output/2024/a.json";
}

artifacts_stored : build_artifacts (codes "input//2024/a.pdf") ≡ some stored
unfolding build_artifacts text_eq
artifacts_stored = refl

-- A step up in the source path is refused.
climbing_refused : build_artifacts (codes "input/../a.pdf") ≡ none
unfolding build_artifacts text_eq
climbing_refused = refl
