-- ===== src/Api/Repository.antt =====
-- `JobRepository` of api/src/docrunr_api/repository.py: the operations that change its tables.
-- `none` stands for an exception, and then `with self._connect()` rolls back.
pub mod Ids
pub mod Rows
pub mod Keeps
pub mod Projection
pub mod Forward
use docrunr.Base.{
  ℕ, ◌+◌, Bool, true, false, not, ◌&&◌, ◌||◌, Option, none, some, List, [], ◌∷◌, ◌++◌, Text, codes,
  text_eq, is_empty, ltb, leb, if◌then◌else◌, ℤ, pos, negsuc,
}
use docrunr.JobStore.Event.{
  Value, none_value, bool_value, int_value, float_value, str_value, other_value, Floats,
  print_value,
}
use docrunr.Api.Binding.{encodable, bindable, all_bindable, is_text}
use docrunr.Api.Schema.{
  JobState, queued, processing, succeeded, failed, Job, OutboxItem, Database, NewJob,
  LifecyclePayload, ResultPayload, LlmPayload,
}

abbrev pub or_else : Option Text → Text → Option Text
or_else (some t) default = some t
or_else none default = some default

abbrev pub has_item : Text → List OutboxItem → Bool
has_item job_id [] = false
has_item job_id (i ∷ is) = text_eq i.job_id job_id || has_item job_id is

abbrev pub new_item : NewJob → ℕ → OutboxItem
new_item new id = record {
  id = id;
  job_id = new.job_id;
  body = new.body;
  priority = new.priority;
  published_at = none;
}

abbrev pub without_item : Text → List OutboxItem → List OutboxItem
without_item job_id [] = []
without_item job_id (i ∷ is) =
    if text_eq i.job_id job_id then without_item job_id is else i ∷ without_item job_id is

abbrev pub is_queued : JobState → Bool
is_queued queued = true
is_queued _ = false

module _ {F : Type 0} where
  abbrev pub has_job : Text → List (Job F) → Bool
  has_job job_id [] = false
  has_job job_id (j ∷ js) = text_eq j.job_id job_id || has_job job_id js

  abbrev pub new_row : NewJob → Text → Job F
  new_row new now = record {
    job_id = new.job_id;
    state = queued;
    file_name = new.file_name;
    file_size = new.file_size;
    content_type = new.content_type;
    source_path = new.source_path;
    priority = new.priority;
    llm_profile = new.llm_profile;
    markdown_path = none_value;
    chunks_path = none_value;
    tokens_used = none_value;
    chars_used = none_value;
    chunk_count = none_value;
    error_message = none_value;
    created_at = now;
    started_at = none;
    completed_at = none;
    llm_state = elim new.llm_profile [
      | none ↦ none
      | some profile ↦ if is_empty profile then none else some queued
    ];
    llm_provider = none_value;
    llm_artifact_path = none_value;
    llm_chunk_count = none_value;
    llm_vector_count = none_value;
    llm_error_message = none_value;
    llm_completed_at = none;
  }

  -- `job_id` is the key of `jobs` and unique in `outbox`.
  unfoldable pub create_job : NewJob → Text → Database F → Option (Database F)
  create_job new now db =
      if has_job new.job_id db.jobs || has_item new.job_id db.outbox
      then none
      else some (record {
        jobs = db.jobs ++ new_row new now ∷ [];
        outbox = db.outbox ++ new_item new db.next_id ∷ [];
        next_id = db.next_id + 1;
      })

  abbrev pub without_job : Text → List (Job F) → List (Job F)
  without_job job_id [] = []
  without_job job_id (j ∷ js) =
      if text_eq j.job_id job_id then without_job job_id js else j ∷ without_job job_id js

  -- `ON DELETE CASCADE` takes the outbox item of a job that is deleted.
  pub delete_job : Text → Database F → Database F
  delete_job job_id db =
      if has_job job_id db.jobs
      then record db { jobs = without_job job_id db.jobs; outbox = without_item job_id db.outbox }
      else db

  abbrev pub update_where : Text → (Job F → Job F) → List (Job F) → List (Job F)
  update_where job_id f [] = []
  update_where job_id f (j ∷ js) =
      (if text_eq j.job_id job_id then f j else j) ∷ update_where job_id f js

  abbrev pub update_job : Text → (Job F → Job F) → Database F → Database F
  update_job job_id f db = record db { jobs = update_where job_id f db.jobs }

  -- `… AND state = 'queued'`
  abbrev pub start_row : Text → Job F → Job F
  start_row occurred_at j =
      if is_queued j.state
      then record j { state = processing; started_at = or_else j.started_at occurred_at }
      else j

  abbrev pub finish_row : Text → ResultPayload F → Job F → Job F
  finish_row completed payload j = record j {
    state = if is_text payload.status (codes "ok") then succeeded else failed;
    markdown_path = payload.markdown_path;
    chunks_path = payload.chunks_path;
    tokens_used = payload.total_tokens;
    chars_used = payload.total_chars;
    chunk_count = payload.chunk_count;
    error_message = payload.error_text;
    started_at = or_else j.started_at j.created_at;
    completed_at = some completed;
  }

  abbrev pub finish_llm_row : Text → LlmPayload F → Job F → Job F
  finish_llm_row completed payload j = record j {
    llm_state = some (if is_text payload.status (codes "ok") then succeeded else failed);
    llm_provider = payload.provider;
    llm_artifact_path = payload.artifact_path;
    llm_chunk_count = payload.chunk_count;
    llm_vector_count = payload.vector_count;
    llm_error_message = payload.error_text;
    llm_completed_at = some completed;
  }

module _ {F : Type 0} (floats : Floats F) (print_int : ℤ → Text) where
  -- `str(payload.get(key, ""))`
  unfoldable pub key_text : Option (Value F) → Text
  unfolding print_value
  key_text none = []
  key_text (some value) = print_value floats print_int value

  -- `bool(value)` of a JSON value.
  unfoldable pub truthy : Value F → Bool
  unfolding text_eq
  truthy none_value = false
  truthy (bool_value b) = b
  truthy (int_value (pos n)) = not (leb n 0)
  truthy (int_value (negsuc n)) = true
  truthy (float_value x) = not (
      text_eq (floats.print_float x) (codes "0.0") || text_eq (floats.print_float x) (codes "-0.0"))
  truthy (str_value text) = not (is_empty text)
  truthy (other_value text) = not (text_eq text (codes "[]") || text_eq text (codes "{}"))

  -- `str(payload.get("occurred_at") or utc_now())`
  occurred : Value F → Text → Text
  unfolding truthy print_value
  occurred value now = if truthy value then print_value floats print_int value else now

  pub apply_lifecycle : LifecyclePayload F → Text → Database F → Option (Database F)
  unfolding key_text occurred
  apply_lifecycle payload now db =
      let job_id = key_text payload.job_id in
      let occurred_at = occurred payload.occurred_at now in
      if not (is_text payload.state (codes "processing")) || is_empty job_id
      then some db
      else if encodable job_id && encodable occurred_at
      then some (update_job job_id (start_row occurred_at) db)
      else none

  unfoldable pub apply_extraction_result : ResultPayload F → Text → Database F → Option (Database F)
  unfolding key_text
  apply_extraction_result payload completed db =
      let job_id = key_text payload.job_id in
      let bound =
        payload.markdown_path ∷ payload.chunks_path ∷ payload.total_tokens ∷ payload.total_chars
        ∷ payload.chunk_count ∷ payload.error_text ∷ [] in
      if is_empty job_id
      then some db
      else if encodable job_id && all_bindable bound
      then some (update_job job_id (finish_row completed payload) db)
      else none

  pub apply_llm_result : LlmPayload F → Text → Database F → Option (Database F)
  unfolding key_text
  apply_llm_result payload completed db =
      let job_id = key_text payload.extract_job_id in
      let bound =
        payload.provider ∷ payload.artifact_path ∷ payload.chunk_count ∷ payload.vector_count
        ∷ payload.error_text ∷ [] in
      if is_empty job_id
      then some db
      else if encodable job_id && all_bindable bound
      then some (update_job job_id (finish_llm_row completed payload) db)
      else none

module _ {F : Type 0} where
  find_job : Text → List (Job F) → Option (Job F)
  find_job job_id [] = none
  find_job job_id (j ∷ js) =
      let rest = find_job job_id js in if text_eq j.job_id job_id then some j else rest

  pub get_job : Text → Database F → Option (Job F)
  unfolding find_job
  get_job job_id db = find_job job_id db.jobs
