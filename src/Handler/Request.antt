-- ===== src/Handler/Request.antt =====
-- The parsing of a job message in worker/src/docrunr_worker/handler.py. JSON and SHA-256 are
-- libraries: `decode` gives the fields that the worker reads, or nothing where `json.loads` raises
-- or gives no object, and `sha256_hex` is the digest.
pub mod RoundTrip
use docrunr.Base.{
  ℕ, ◌≤◌, ◌≡◌, ◌≢◌, Option, none, some, [], ◌++◌, Text, codes, take, is_empty, strip, if◌then◌else◌,
  Option-cases, inl, inr, arith,
}
use docrunr.JobStore.Event.{Value, str_value}
use docrunr.Messages.Priority.{parse_extraction_job_priority, validate-le, job_queue_max_priority}

-- `msg.get("options")`: `None` or missing, an object, or anything else.
pub data Options : Type 0 where
  no_options object_options other_options : Options

pub record Message (F : Type 0) : Type 0 where
  pub job_id : Value F
  pub filename : Value F
  pub source_path : Value F
  pub priority : Value F
  pub llm_profile : Value F
  pub options : Options

pub record JobRequest : Type 0 where
  pub job_id : Text
  pub filename : Text
  pub source_path : Text
  pub priority : ℕ
  pub llm_profile : Text

infixl 5 ◌>>=◌
abbrev ◌>>=◌ : {A B : Type 0} → Option A → (A → Option B) → Option B
◌>>=◌ none f = none
◌>>=◌ (some a) f = f a

module _ {F : Type 0} where
  -- `isinstance(value, str) and value.strip()`, with `none` for the `ValueError`.
  require_non_empty_str : Value F → Option Text
  unfolding strip
  require_non_empty_str (str_value text) = if is_empty (strip text) then none else some text
  require_non_empty_str _ = none

  filename_of : Value F → Text
  filename_of (str_value text) = if is_empty text then codes "unknown" else text
  filename_of _ = codes "unknown"

  profile_of : Value F → Text
  unfolding strip
  profile_of (str_value text) = strip text
  profile_of _ = []

  -- `_parse_job_request`; the priority is read before the ids, and each may raise.
  pub parse_job_request : Message F → Option JobRequest
  unfolding require_non_empty_str filename_of profile_of parse_extraction_job_priority
  parse_job_request msg = do
    priority ← parse_extraction_job_priority msg.priority
    job_id ← require_non_empty_str msg.job_id
    source_path ← require_non_empty_str msg.source_path
    some (record {
      job_id = job_id;
      filename = filename_of msg.filename;
      source_path = source_path;
      priority = priority;
      llm_profile = profile_of msg.llm_profile;
    })

  pub parse_message : Message F → Option JobRequest
  unfolding parse_job_request
  parse_message msg = elim msg.options [
    | no_options ↦ parse_job_request msg
    | object_options ↦ parse_job_request msg
    | other_options ↦ none
  ]

module _ {F : Type 0} (decode : Text → Option (Message F)) (sha256_hex : Text → Text) where
  -- `_parse_extraction_request`, with `none` for whatever it raises.
  pub parse_extraction_request : Text → Option JobRequest
  unfolding parse_message
  parse_extraction_request body = do msg ← decode body; parse_message msg

  -- `_malformed_job_id`
  pub malformed_job_id : Text → Text → Text
  unfolding strip
  malformed_job_id body delivery_id =
      let base = codes "malformed-" ++ take 24 (sha256_hex body) in
      if is_empty (strip delivery_id) then base else base ++ (codes "-" ++ strip delivery_id)

  unfoldable pub parse_job_request_from_body : Text → Text → JobRequest
  unfolding parse_extraction_request malformed_job_id
  parse_job_request_from_body body delivery_id = elim (parse_extraction_request body) [
    | some request ↦ request
    | none ↦ record {
      job_id = malformed_job_id body delivery_id;
      filename = codes "unknown";
      source_path = codes "unknown";
      priority = 0;
      llm_profile = [];
    }
  ]

-- What every request promises, parsed or made up: ids that are not blank and a legal priority.
pub record IsUsable (r : JobRequest) : Type 0 where
  pub has_id : r.job_id ≢ []
  pub has_filename : r.filename ≢ []
  pub has_source : r.source_path ≢ []
  pub in_range : r.priority ≤ job_queue_max_priority

module _ {F : Type 0} where
  require_non_empty_str-ne : (v : Value F) (t : Text) → require_non_empty_str v ≡ some t → t ≢ []
  unfolding require_non_empty_str strip
  require_non_empty_str-ne v t h e = ground arith

  filename_of-ne : (v : Value F) → filename_of v ≢ []
  unfolding filename_of
  filename_of-ne v = ground arith

  parse_job_request-IsUsable :
      (msg : Message F) (r : JobRequest) → parse_job_request msg ≡ some r → IsUsable r
  unfolding parse_job_request
  parse_job_request-IsUsable msg r h = ground (
    arith,
    require_non_empty_str-ne msg.job_id r.job_id,
    require_non_empty_str-ne msg.source_path r.source_path,
    filename_of-ne msg.filename,
    validate-le msg.priority {n = r.priority},
  )

  parse_message-IsUsable :
      (msg : Message F) (r : JobRequest) → parse_message msg ≡ some r → IsUsable r
  unfolding parse_message
  parse_message-IsUsable msg r h = go msg.options h
    where
      go :
          (options : Options)
          → (elim options [
            | no_options ↦ parse_job_request msg
            | object_options ↦ parse_job_request msg
            | other_options ↦ none
          ])
            ≡ some r
          → IsUsable r
      go no_options h = parse_job_request-IsUsable msg r h
      go object_options h = parse_job_request-IsUsable msg r h
      go other_options h = absurd (ground arith)

module _ {F : Type 0} (decode : Text → Option (Message F)) (sha256_hex : Text → Text) where
  malformed_job_id-ne :
      (body delivery_id : Text) → malformed_job_id decode sha256_hex body delivery_id ≢ []
  unfolding malformed_job_id
  malformed_job_id-ne body delivery_id = ground arith

  -- Whatever a message holds, the request that is read or made up for it has an id, a file name and
  -- a source path that are not empty, and a priority of at most 255.
  pub parse_job_request_from_body-IsUsable :
      (body delivery_id : Text)
      → IsUsable (parse_job_request_from_body decode sha256_hex body delivery_id)
  unfolding parse_job_request_from_body
  parse_job_request_from_body-IsUsable body delivery_id = elim (Option-cases (decode body)) [
    | inl bad ↦
        rw (bad, parse_job_request_from_body, parse_extraction_request)
          (record {
            has_id = malformed_job_id-ne body delivery_id;
            has_filename = λ e. cc;
            has_source = λ e. cc;
            in_range = omega arith;
          })
    | inr (msg, decoded) ↦ elim (Option-cases (parse_message msg)) [
      | inl bad ↦
          rw (decoded, parse_job_request_from_body, parse_extraction_request, bad)
            (record {
              has_id = malformed_job_id-ne body delivery_id;
              has_filename = λ e. cc;
              has_source = λ e. cc;
              in_range = omega arith;
            })
      | inr (r, parsed) ↦
          rw (decoded, parse_job_request_from_body, parse_extraction_request, parsed)
            (parse_message-IsUsable msg r parsed)
    ]
  ]
