-- ===== src/Handler/Job.antt =====
-- `handle_extract_job` of worker/src/docrunr_worker/handler.py with `_build_outcome`. What the calls
-- do is given by how each of them ends: `some e` is an exception, which the timer's `JobTimeoutError`
-- may be as well. The duration is left out, and so is a timer that fires while an exception is
-- being handled.
pub mod Honest
use docrunr.Base.{
  ℕ, Option, none, some, ◌⊎◌, inl, inr, Bool, List, [], ◌∷◌, ◌++◌, Text, codes, is_empty, ℤ, pos,
  if◌then◌else◌,
}
use docrunr.JobStatus
use docrunr.JobStatus.{Status}
use docrunr.Handler.Request.{
  Message, JobRequest, parse_extraction_request, parse_job_request_from_body,
}
use docrunr.Handler.Artifacts.{OutputArtifacts, build_artifacts}

-- What `convert` returns, as far as it is read; `error_text` is empty where there is none.
pub record Converted : Type 0 where
  pub is_ok : Bool
  pub error_text : Text
  pub mime_type : Text
  pub size_bytes : ℤ
  pub total_tokens : ℕ
  pub total_chars : ℕ
  pub chunk_count : ℕ

-- `bad_message` and `bad_path` are the texts of the errors of `_parse_extraction_request` and
-- `_build_artifacts`; `returns` is the way from the last write to the `return`.
pub record Calls : Type 0 where
  pub bad_message : Text
  pub arms : Option Text
  pub reads : Option Text
  pub converts : Text ⊎ Converted
  pub bad_path : Text
  pub writes_result : Option Text
  pub writes_markdown : Option Text
  pub writes_chunks : Option Text
  pub returns : Option Text

-- What reaches the storage.
pub data StorageAction : Type 0 where
  wrote : Text → StorageAction
  cleaned : StorageAction

pub record JobOutcome : Type 0 where
  pub request : JobRequest
  pub status : Status
  pub markdown_path : Option Text
  pub chunks_path : Option Text
  pub total_tokens : ℕ
  pub total_chars : ℕ
  pub chunk_count : ℕ
  pub error_text : Option Text
  pub mime_type : Text
  pub size_bytes : ℤ

-- The outcome of both error branches.
abbrev error_outcome : JobRequest → Text → Text → ℤ → JobOutcome
error_outcome request error_text mime_type size_bytes = record {
  request = request;
  status = JobStatus.error;
  markdown_path = none;
  chunks_path = none;
  total_tokens = 0;
  total_chars = 0;
  chunk_count = 0;
  error_text = some error_text;
  mime_type = mime_type;
  size_bytes = size_bytes;
}

-- `except Exception as exc`
abbrev failed : JobRequest → Text → JobOutcome
failed request exc = error_outcome request exc [] (pos 0)

abbrev succeeded : JobRequest → Converted → OutputArtifacts → JobOutcome
succeeded request converted artifacts = record {
  request = request;
  status = JobStatus.ok;
  markdown_path = some artifacts.markdown_path;
  chunks_path = some artifacts.chunks_path;
  total_tokens = converted.total_tokens;
  total_chars = converted.total_chars;
  chunk_count = converted.chunk_count;
  error_text = none;
  mime_type = converted.mime_type;
  size_bytes = converted.size_bytes;
}

module _ (calls : Calls) (request : JobRequest) where
  store_artifacts : Converted → OutputArtifacts → JobOutcome × List StorageAction
  store_artifacts converted artifacts =
      let markdown = wrote artifacts.markdown_path in
      let chunks = wrote artifacts.chunks_path in
      elim calls.writes_result [
        | some e ↦ (failed request e, [])
        | none ↦ elim calls.writes_markdown [
          | some e ↦ (failed request e, [])
          | none ↦ elim calls.writes_chunks [
            | some e ↦ (failed request e, markdown ∷ [])
            | none ↦ elim calls.returns [
              | some e ↦ (failed request e, markdown ∷ chunks ∷ [])
              | none ↦ (succeeded request converted artifacts, markdown ∷ chunks ∷ [])
            ]
          ]
        ]
      ]

  store_converted : Converted → JobOutcome × List StorageAction
  unfolding store_artifacts build_artifacts
  store_converted converted =
      if converted.is_ok
      then (elim (build_artifacts request.source_path) [
        | none ↦ (failed request calls.bad_path, [])
        | some artifacts ↦ store_artifacts converted artifacts
      ])
      else (
        error_outcome request
            (if is_empty converted.error_text
              then codes "conversion failed"
              else converted.error_text)
            converted.mime_type converted.size_bytes,
        [],
      )

  convert_file : JobOutcome × List StorageAction
  unfolding store_converted
  convert_file = elim calls.converts [
    | inl e ↦ (failed request e, [])
    | inr converted ↦ store_converted converted
  ]

  -- `finally: if local_file is not None: storage.cleanup(local_file)`
  run_job : JobOutcome × List StorageAction
  unfolding convert_file
  run_job = elim calls.arms [
    | some e ↦ (failed request e, [])
    | none ↦ elim calls.reads [
      | some e ↦ (failed request e, [])
      | none ↦ (convert_file.0, convert_file.1 ++ cleaned ∷ [])
    ]
  ]

module _ {F : Type 0} (decode : Text → Option (Message F)) (sha256_hex : Text → Text) where
  unfoldable pub handle_extract_job : Calls → Text → Text → JobOutcome × List StorageAction
  unfolding run_job parse_job_request_from_body
  handle_extract_job calls body delivery_id =
      elim (parse_extraction_request decode sha256_hex body) [
        | none ↦ (
          failed (parse_job_request_from_body decode sha256_hex body delivery_id) calls.bad_message,
          [],
        )
        | some request ↦ run_job calls request
      ]
