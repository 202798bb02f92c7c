-- ===== src/Llm/Request.antt =====
-- The parsing of a job in worker-llm/src/docrunr_worker_llm/handler.py. `decode` gives the fields
-- of a JSON object, and `sha256_hex` is the digest.
pub mod Usable
use docrunr.Base.{
  ℕ, ◌≡◌, ◌≢◌, Option, none, some, [], ◌++◌, Text, codes, take, is_empty, strip, if◌then◌else◌,
  Option-cases, inl, inr, arith, false,
}
use docrunr.JobStore.Event.{Value, str_value}

pub record LlmMessage (F : Type 0) : Type 0 where
  pub job_id : Value F
  pub extract_job_id : Value F
  pub filename : Value F
  pub source_path : Value F
  pub chunks_path : Value F
  pub llm_profile : Value F

pub record LlmJobRequest : Type 0 where
  pub job_id : Text
  pub extract_job_id : Text
  pub filename : Text
  pub source_path : Text
  pub chunks_path : Text
  pub llm_profile : Text

infixl 5 ◌>>=◌
abbrev ◌>>=◌ : {A B : Type 0} → Option A → (A → Option B) → Option B
◌>>=◌ none f = none
◌>>=◌ (some a) f = f a

module _ {F : Type 0} where
  -- `_require_non_empty_str`, with `none` for the `ValueError`
  require_non_empty_str : Value F → Option Text
  unfolding strip
  require_non_empty_str (str_value text) = if is_empty (strip text) then none else some text
  require_non_empty_str _ = none

  abbrev string_or : Value F → Text → Text
  string_or (str_value text) default = text
  string_or _ default = default

  unfoldable pub parse_llm_message : LlmMessage F → Option LlmJobRequest
  unfolding require_non_empty_str
  parse_llm_message msg = do
    job_id ← require_non_empty_str msg.job_id
    extract_job_id ← require_non_empty_str msg.extract_job_id
    source_path ← require_non_empty_str msg.source_path
    chunks_path ← require_non_empty_str msg.chunks_path
    some (record {
      job_id = job_id;
      extract_job_id = extract_job_id;
      filename = string_or msg.filename (codes "unknown");
      source_path = source_path;
      chunks_path = chunks_path;
      llm_profile = string_or msg.llm_profile [];
    })

module _ (F : Type 0) where
  -- The fields as `llm_job_payload_dict` of worker/src/docrunr_worker/consumer.py writes them are
  -- read back as they are.
  pub parse_llm_message-written :
      (r : LlmJobRequest)
      → is_empty (strip r.job_id) ≡ false
      → is_empty (strip r.extract_job_id) ≡ false
      → is_empty (strip r.source_path) ≡ false
      → is_empty (strip r.chunks_path) ≡ false
      → parse_llm_message {F = F} (record {
        job_id = str_value r.job_id;
        extract_job_id = str_value r.extract_job_id;
        filename = str_value r.filename;
        source_path = str_value r.source_path;
        chunks_path = str_value r.chunks_path;
        llm_profile = str_value r.llm_profile;
      })
        ≡ some r
  unfolding parse_llm_message require_non_empty_str
  parse_llm_message-written r i e s c = ground arith

module _ {F : Type 0} (decode : Text → Option (LlmMessage F)) (sha256_hex : Text → Text) where
  -- `_parse_llm_request`, with `none` for whatever it raises
  unfoldable pub parse_llm_request : Text → Option LlmJobRequest
  unfolding parse_llm_message
  parse_llm_request body = do msg ← decode body; parse_llm_message msg

  -- `_malformed_job_id`
  malformed_job_id : Text → Text → Text
  unfolding strip
  malformed_job_id body delivery_id =
      let base = codes "malformed-" ++ take 24 (sha256_hex body) in
      if is_empty (strip delivery_id) then base else base ++ (codes "-" ++ strip delivery_id)

  unfoldable pub parse_job_request_from_body : Text → Text → LlmJobRequest
  unfolding parse_llm_request malformed_job_id
  parse_job_request_from_body body delivery_id = elim (parse_llm_request body) [
    | some request ↦ request
    | none ↦ record {
      job_id = malformed_job_id body delivery_id;
      extract_job_id = codes "unknown";
      filename = codes "unknown";
      source_path = codes "unknown";
      chunks_path = codes "unknown";
      llm_profile = [];
    }
  ]
