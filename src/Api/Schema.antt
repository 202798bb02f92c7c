-- ===== src/Api/Schema.antt =====
-- The tables of api/src/docrunr_api/repository.py, and the payloads by the keys that are read. A
-- column holds the value that was bound; SQLite's column types are not modelled.
use docrunr.Base.{ℕ, Option, List, Text, ℤ}
use docrunr.JobStore.Event.{Value}

pub data JobState : Type 0 where
  queued processing succeeded failed : JobState

pub record Job (F : Type 0) : Type 0 where
  pub job_id : Text
  pub state : JobState
  pub file_name : Text
  pub file_size : ℕ
  pub content_type : Option Text
  pub source_path : Text
  pub priority : ℤ
  pub llm_profile : Option Text
  pub markdown_path : Value F
  pub chunks_path : Value F
  pub tokens_used : Value F
  pub chars_used : Value F
  pub chunk_count : Value F
  pub error_message : Value F
  pub created_at : Text
  pub started_at : Option Text
  pub completed_at : Option Text
  pub llm_state : Option JobState
  pub llm_provider : Value F
  pub llm_artifact_path : Value F
  pub llm_chunk_count : Value F
  pub llm_vector_count : Value F
  pub llm_error_message : Value F
  pub llm_completed_at : Option Text

pub record OutboxItem : Type 0 where
  pub id : ℕ
  pub job_id : Text
  pub body : Text
  pub priority : ℤ
  pub published_at : Option Text

-- `outbox` stands in the order of `id`; `next_id` is what AUTOINCREMENT gives next.
pub record Database (F : Type 0) : Type 0 where
  pub jobs : List (Job F)
  pub outbox : List OutboxItem
  pub next_id : ℕ

-- The arguments of `create_job`.
pub record NewJob : Type 0 where
  pub job_id : Text
  pub file_name : Text
  pub file_size : ℕ
  pub content_type : Option Text
  pub source_path : Text
  pub priority : ℤ
  pub llm_profile : Option Text
  pub body : Text

-- In a key that `get` reads with a default `none` is a
-- missing key, and else `none_value` stands for it.
pub record LifecyclePayload (F : Type 0) : Type 0 where
  pub job_id : Option (Value F)
  pub state : Value F
  pub occurred_at : Value F

pub record ResultPayload (F : Type 0) : Type 0 where
  pub job_id : Option (Value F)
  pub status : Value F
  pub markdown_path : Value F
  pub chunks_path : Value F
  pub total_tokens : Value F
  pub total_chars : Value F
  pub chunk_count : Value F
  pub error_text : Value F

pub record LlmPayload (F : Type 0) : Type 0 where
  pub extract_job_id : Option (Value F)
  pub status : Value F
  pub provider : Value F
  pub artifact_path : Value F
  pub chunk_count : Value F
  pub vector_count : Value F
  pub error_text : Value F
