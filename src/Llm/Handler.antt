-- ===== src/Llm/Handler.antt =====
-- `handle_llm_job` of worker-llm/src/docrunr_worker_llm/handler.py with `_build_outcome`. `embed` is
-- `generate_embeddings` at the path of the chunks and the profile; durations are left out.
pub mod Honest
pub mod Followup
use docrunr.Base.{
  ℕ, ◌≡◌, ◌≢◌, refl, ap, Option, none, some, ◌⊎◌, inl, inr, Text, codes, [], ◌++◌, is_empty, strip,
  if◌then◌else◌, Option-cases, arith,
}
use docrunr.JobStatus
use docrunr.JobStatus.{Status}
use docrunr.JobStore.Event.{Value, str_value}
use docrunr.Llm.Request.{
  LlmMessage, LlmJobRequest, parse_llm_message, parse_llm_request, parse_job_request_from_body,
}
use docrunr.Llm.Embeddings.{ArtifactData}

pub record LlmOutcome : Type 0 where
  pub request : LlmJobRequest
  pub status : Status
  pub llm_profile : Text
  pub provider : Text
  pub chunk_count : ℕ
  pub vector_count : ℕ
  pub artifact_path : Option Text
  pub error_text : Option Text

abbrev pub failed : LlmJobRequest → Text → LlmOutcome
failed request exc = record {
  request = request;
  status = JobStatus.error;
  llm_profile = request.llm_profile;
  provider = [];
  chunk_count = 0;
  vector_count = 0;
  artifact_path = none;
  error_text = some exc;
}

abbrev pub succeeded : {V : Type 0} → LlmJobRequest → ArtifactData V → LlmOutcome
succeeded request artifact = record {
  request = request;
  status = JobStatus.ok;
  llm_profile = artifact.llm_profile;
  provider = artifact.provider;
  chunk_count = artifact.chunk_count;
  vector_count = artifact.vector_count;
  artifact_path = some artifact.artifact_path;
  error_text = none;
}

module _ {F V : Type 0} (decode : Text → Option (LlmMessage F)) (sha256_hex : Text → Text)
    (embed : Text → Text → Text ⊎ ArtifactData V) where
  -- `bad_message` is the text of what `_parse_llm_request` raises.
  unfoldable pub handle_llm_job : Text → Text → Text → LlmOutcome
  unfolding parse_job_request_from_body parse_llm_request
  handle_llm_job bad_message body delivery_id = elim (parse_llm_request decode sha256_hex body) [
    | none ↦ failed (parse_job_request_from_body decode sha256_hex body delivery_id) bad_message
    | some request ↦ elim (embed request.chunks_path request.llm_profile) [
      | inl exc ↦ failed request exc
      | inr artifact ↦ succeeded request artifact
    ]
  ]
