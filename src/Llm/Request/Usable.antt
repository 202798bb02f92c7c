-- ===== src/Llm/Request/Usable.antt =====
-- What every request for embeddings promises, parsed or made up.
use docrunr.Base.{◌≡◌, ◌≢◌, Option, some, Text, codes, strip, [], Option-cases, inl, inr, arith}
use docrunr.JobStore.Event.{Value}
use docrunr.Llm.Request.{
  LlmMessage, LlmJobRequest, parse_llm_message, parse_llm_request, parse_job_request_from_body,
  require_non_empty_str, malformed_job_id,
}

pub record IsUsable (r : LlmJobRequest) : Type 0 where
  pub has_id : r.job_id ≢ []
  pub has_extract_id : r.extract_job_id ≢ []
  pub has_source : r.source_path ≢ []
  pub has_chunks : r.chunks_path ≢ []

module _ {F : Type 0} where
  require_non_empty_str-ne : (v : Value F) (t : Text) → require_non_empty_str v ≡ some t → t ≢ []
  unfolding require_non_empty_str strip
  require_non_empty_str-ne v t h e = ground arith

  parse_llm_message-IsUsable :
      (msg : LlmMessage F) (r : LlmJobRequest) → parse_llm_message msg ≡ some r → IsUsable r
  unfolding parse_llm_message
  parse_llm_message-IsUsable msg r h = ground (
    arith,
    require_non_empty_str-ne msg.job_id r.job_id,
    require_non_empty_str-ne msg.extract_job_id r.extract_job_id,
    require_non_empty_str-ne msg.source_path r.source_path,
    require_non_empty_str-ne msg.chunks_path r.chunks_path,
  )

module _ {F : Type 0} (decode : Text → Option (LlmMessage F)) (sha256_hex : Text → Text) where
  malformed_job_id-ne :
      (body delivery_id : Text) → malformed_job_id decode sha256_hex body delivery_id ≢ []
  unfolding malformed_job_id
  malformed_job_id-ne body delivery_id = ground arith

  made_up-IsUsable :
      (body delivery_id : Text)
      → IsUsable (record {
        job_id = malformed_job_id decode sha256_hex body delivery_id;
        extract_job_id = codes "unknown";
        filename = codes "unknown";
        source_path = codes "unknown";
        chunks_path = codes "unknown";
        llm_profile = [];
      })
  made_up-IsUsable body delivery_id = record {
    has_id = malformed_job_id-ne body delivery_id;
    has_extract_id = λ e. cc;
    has_source = λ e. cc;
    has_chunks = λ e. cc;
  }

  pub parse_job_request_from_body-IsUsable :
      (body delivery_id : Text)
      → IsUsable (parse_job_request_from_body decode sha256_hex body delivery_id)
  unfolding parse_job_request_from_body parse_llm_request
  parse_job_request_from_body-IsUsable body delivery_id = elim (Option-cases (decode body)) [
    | inl bad ↦
        rw (bad, parse_job_request_from_body, parse_llm_request) (made_up-IsUsable body delivery_id)
    | inr (msg, decoded) ↦ elim (Option-cases (parse_llm_message msg)) [
      | inl bad ↦
          rw (decoded, parse_job_request_from_body, parse_llm_request, bad)
            (made_up-IsUsable body delivery_id)
      | inr (r, parsed) ↦
          rw (decoded, parse_job_request_from_body, parse_llm_request, parsed)
            (parse_llm_message-IsUsable msg r parsed)
    ]
  ]
