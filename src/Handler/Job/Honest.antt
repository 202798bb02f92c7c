-- ===== src/Handler/Job/Honest.antt =====
-- What an outcome says is what has happened.
use docrunr.Base.{
  ℕ, suc, ◌≡◌, ◌≢◌, refl, Option, none, some, ◌⊎◌, inl, inr, List, [], ◌∷◌, ◌++◌, Text, Bool-cases,
  Option-cases, ap, ◌∙◌,
}
use docrunr.JobStatus
use docrunr.JobStatus.{Status}
use docrunr.Handler.Request.{
  Message, JobRequest, parse_job_request_from_body, parse_extraction_request,
}
use docrunr.Handler.Artifacts.{OutputArtifacts, build_artifacts}
use docrunr.Handler.Job.{
  Converted, Calls, StorageAction, wrote, cleaned, JobOutcome, store_artifacts, store_converted,
  convert_file, run_job, failed, handle_extract_job,
}

-- The writes and the clean-ups of a run.
abbrev pub written : List StorageAction → List Text
written [] = []
written (wrote path ∷ actions) = path ∷ written actions
written (cleaned ∷ actions) = written actions

abbrev pub cleanups : List StorageAction → ℕ
cleanups [] = 0
cleanups (cleaned ∷ actions) = suc (cleanups actions)
cleanups (wrote path ∷ actions) = cleanups actions

-- A success names two files, which have been written, and an error names none and has a text.
abbrev Tells : Status → JobOutcome → List StorageAction → Type 0
Tells JobStatus.ok o actions =
    (o.error_text ≡ none)
    × (a : OutputArtifacts) × (build_artifacts o.request.source_path ≡ some a)
    × (o.markdown_path ≡ some a.markdown_path)
    × (o.chunks_path ≡ some a.chunks_path)
    × (written actions ≡ a.markdown_path ∷ a.chunks_path ∷ [])
Tells _ o actions = (o.error_text ≢ none) × (o.markdown_path ≡ none) × (o.chunks_path ≡ none)

pub record IsHonest (request : JobRequest) (run : JobOutcome × List StorageAction) : Type 0 where
  pub same_request : run.0.request ≡ request
  pub tells : Tells run.0.status run.0 run.1

failed-IsHonest :
    (request : JobRequest) (e : Text) (actions : List StorageAction)
    → IsHonest request (failed request e, actions)
failed-IsHonest request e actions = record { same_request = refl; tells = (λ h. cc, refl, refl) }

written-cleaned :
    (actions : List StorageAction) → written (actions ++ cleaned ∷ []) ≡ written actions
written-cleaned [] = refl
written-cleaned (wrote path ∷ actions) = ap (λ t. path ∷ t) (written-cleaned actions)
written-cleaned (cleaned ∷ actions) = written-cleaned actions

-- The clean-up changes nothing of what is told.
Tells-cleaned :
    (status : Status) (o : JobOutcome) (actions : List StorageAction)
    → Tells status o actions
    → Tells status o (actions ++ cleaned ∷ [])
Tells-cleaned JobStatus.ok o actions h = (h.0, h.1, h.2, h.3, h.4, written-cleaned actions ∙ h.5)
Tells-cleaned JobStatus.error o actions h = h
Tells-cleaned JobStatus.processing o actions h = h
Tells-cleaned (JobStatus.other t) o actions h = h

module _ (calls : Calls) (request : JobRequest) where
  store_artifacts-IsHonest :
      (converted : Converted) (artifacts : OutputArtifacts)
      → build_artifacts request.source_path ≡ some artifacts
      → IsHonest request (store_artifacts calls request converted artifacts)
  unfolding store_artifacts
  store_artifacts-IsHonest converted artifacts built = elim (Option-cases calls.writes_result) [
    | inr (e, raised) ↦ rw (raised, store_artifacts) (failed-IsHonest request e _)
    | inl written_result ↦ elim (Option-cases calls.writes_markdown) [
      | inr (e, raised) ↦ rw (written_result, raised, store_artifacts) (failed-IsHonest request e _)
      | inl written_markdown ↦ elim (Option-cases calls.writes_chunks) [
        | inr (e, raised) ↦
            rw (written_result, written_markdown, raised, store_artifacts)
              (failed-IsHonest request e _)
        | inl written_chunks ↦ elim (Option-cases calls.returns) [
          | inr (e, raised) ↦
              rw (written_result, written_markdown, written_chunks, raised, store_artifacts)
                (failed-IsHonest request e _)
          | inl returned ↦
              rw (written_result, written_markdown, written_chunks, returned, store_artifacts)
                (record { same_request = refl; tells = (refl, artifacts, built, refl, refl, refl) })
        ]
      ]
    ]
  ]

  store_converted-IsHonest :
      (converted : Converted) → IsHonest request (store_converted calls request converted)
  unfolding store_converted
  store_converted-IsHonest converted = elim (Bool-cases converted.is_ok) [
    | inr bad ↦ rw bad (record { same_request = refl; tells = (λ h. cc, refl, refl) })
    | inl good ↦ elim (Option-cases (build_artifacts request.source_path)) [
      | inl refused ↦
          rw (good, refused, store_converted) (failed-IsHonest request calls.bad_path [])
      | inr (artifacts, built) ↦
          rw (good, built, store_converted) (store_artifacts-IsHonest converted artifacts built)
    ]
  ]

  convert_file-IsHonest : IsHonest request (convert_file calls request)
  unfolding convert_file
  convert_file-IsHonest = go calls.converts
    where
      go :
          (converts : Text ⊎ Converted)
          → IsHonest request (elim converts [
            | inl e ↦ (failed request e, [])
            | inr converted ↦ store_converted calls request converted
          ])
      go (inl e) = failed-IsHonest request e []
      go (inr converted) = store_converted-IsHonest converted

  run_job-IsHonest : IsHonest request (run_job calls request)
  unfolding run_job
  run_job-IsHonest = elim (Option-cases calls.arms) [
    | inr (e, raised) ↦ rw (raised, run_job) (failed-IsHonest request e [])
    | inl armed ↦ elim (Option-cases calls.reads) [
      | inr (e, raised) ↦ rw (armed, raised, run_job) (failed-IsHonest request e [])
      | inl read ↦
          rw (armed, read, run_job)
            (record {
              same_request = convert_file-IsHonest.same_request;
              tells = Tells-cleaned _ _ (convert_file calls request).1 convert_file-IsHonest.tells;
            })
    ]
  ]

module _ {F : Type 0} (decode : Text → Option (Message F)) (sha256_hex : Text → Text) where
  -- However its calls end, the handler returns an outcome for the request that the consumer reads
  -- from the same message: with status `ok` it has no error and names two files, the artifacts of
  -- the source path, both of which have been written, and no other; with any other status it has
  -- an error and names no file.
  pub handle_extract_job-IsHonest :
      (calls : Calls) (body delivery_id : Text)
      → IsHonest
          (parse_job_request_from_body decode sha256_hex body delivery_id)
          (handle_extract_job decode sha256_hex calls body delivery_id)
  unfolding handle_extract_job parse_job_request_from_body
  handle_extract_job-IsHonest calls body delivery_id =
      elim (Option-cases (parse_extraction_request decode sha256_hex body)) [
        | inl bad ↦ rw (bad, handle_extract_job) (failed-IsHonest _ calls.bad_message [])
        | inr (request, good) ↦
            rw (good, handle_extract_job, parse_job_request_from_body)
              (run_job-IsHonest calls request)
      ]
