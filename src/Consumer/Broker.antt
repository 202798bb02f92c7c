-- ===== src/Consumer/Broker.antt =====
-- The channel of one delivery, as worker/src/docrunr_worker/consumer.py uses it. The broker is
-- RabbitMQ behind pika: each call is answered from a list, so that a theorem for every list of
-- answers holds whatever the broker does.
use docrunr.Base.{ℕ, Bool, false, Option, List, [], ◌∷◌, Text, if◌then◌else◌}
use docrunr.JobStatus.{Status}

-- The job that follows an extraction, without its fresh id.
pub record LlmJob : Type 0 where
  pub extract_job_id : Text
  pub filename : Text
  pub source_path : Text
  pub chunks_path : Text
  pub llm_profile : Text
  pub priority : ℕ

-- The events that the consumer writes out for the job store, by what differs between them.
pub record JobEvent : Type 0 where
  pub job_id : Text
  pub status : Status
  pub filename : Text
  pub source_path : Text
  pub error_text : Option Text
  pub priority : ℕ

-- The events of the worker for embeddings, likewise.
pub record LlmJobEvent : Type 0 where
  pub job_id : Text
  pub status : Status
  pub filename : Text
  pub source_path : Text
  pub chunks_path : Text
  pub llm_profile : Text
  pub error_text : Option Text

-- The calls that reach the broker and the events that are handed to the job store.
pub data Action : Type 0 where
  published_lifecycle : Text → Action
  published_result : Text → Action
  declared_llm_queue : Action
  published_llm : LlmJob → Action
  published_dlq : Text → Text → Text → Action
  recorded : JobEvent → Action
  recorded_llm : LlmJobEvent → Action
  recorded_payload : Action
  acked : Action
  nacked : Action

-- How a call ends: it returns; it raises and has done nothing; or it raises because the channel is
-- gone, before the broker took the call or behind it, as where the connection breaks while pika
-- flushes its output. pika closes the channel where a call that went out raises.
pub data Answer : Type 0 where
  returns : Answer
  raises closes closes_behind : Text → Answer

-- `trace` holds the actions that were carried out, the latest first.
pub record Broker : Type 0 where
  pub is_open : Bool
  pub answers : List Answer
  pub trace : List Action

pub data Result : Type 0 where
  ok : Result
  raised : Text → Result

abbrev pub Step : Type 0
Step = Broker → Result × Broker

abbrev pub next : Result × Broker → Step → Result × Broker
next (ok, b) k = k b
next (raised e, b) k = (raised e, b)

infixl 5 ◌>>◌
abbrev pub ◌>>◌ : Step → Step → Step
◌>>◌ m k b = next (m b) k

abbrev pub pure : Step
pure b = (ok, b)

-- `raise exc`
abbrev pub raise : Text → Step
raise e b = (raised e, b)

abbrev pub handled : Result × Broker → (Text → Step) → Result × Broker
handled (ok, b) handler = (ok, b)
handled (raised e, b) handler = handler e b

-- `try: m except Exception as exc: handler(exc)`
abbrev pub catch : Step → (Text → Step) → Step
catch m handler b = handled (m b) handler

-- `if channel.is_open: m else: k`
abbrev pub if_open : Step → Step → Step
if_open m k b = if b.is_open then m b else k b

abbrev pub carry_out : Action → Broker → Broker
carry_out a b = record b { trace = a ∷ b.trace }

abbrev pub answer_call : Answer → Action → Broker → Result × Broker
answer_call returns a b = (ok, carry_out a b)
answer_call (raises e) a b = (raised e, b)
answer_call (closes e) a b = (raised e, record b { is_open = false })
answer_call (closes_behind e) a b = (raised e, record (carry_out a b) { is_open = false })

unfoldable pub call_open : List Answer → Action → Broker → Result × Broker
call_open [] a b = (ok, carry_out a b)
call_open (answer ∷ answers) a b = answer_call answer a (record b { answers = answers })

-- A call of the channel. Where no answer is left it returns, and on a closed channel it raises.
unfoldable pub call : Action → Step
unfolding call_open
call a b = if b.is_open then call_open b.answers a b else (raised [], b)

-- `stats.record_job` under a `try` of its own: whether it raises or not, the delivery goes on.
abbrev pub note : Action → Step
note a b = (ok, carry_out a b)
