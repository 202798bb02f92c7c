-- ===== src/Llm/Handler/Honest.antt =====
-- What an outcome of the worker for embeddings says is what has happened.
use docrunr.Base.{◌≡◌, ◌≢◌, refl, Option, none, some, ◌⊎◌, inl, inr, Text, Option-cases}
use docrunr.JobStatus
use docrunr.JobStatus.{Status}
use docrunr.Llm.Request.{LlmMessage, LlmJobRequest, parse_llm_request, parse_job_request_from_body}
use docrunr.Llm.Request.Usable.{IsUsable, parse_job_request_from_body-IsUsable}
use docrunr.Llm.Embeddings.{ArtifactData}
use docrunr.Llm.Handler.{LlmOutcome, failed, succeeded, handle_llm_job}

module _ {V : Type 0} (embed : Text → Text → Text ⊎ ArtifactData V) where
  -- A success names the artifact that was made from the chunks of the request, with its counts; an
  -- error names none, counts nothing and has a text.
  abbrev pub Tells : Status → LlmOutcome → Type 0
  Tells JobStatus.ok o =
      (a : ArtifactData V) × (embed o.request.chunks_path o.request.llm_profile ≡ inr a)
      × (o.artifact_path ≡ some a.artifact_path)
      × (o.vector_count ≡ a.vector_count)
      × (o.chunk_count ≡ a.chunk_count)
      × (o.error_text ≡ none)
  Tells _ o = (o.error_text ≢ none) × (o.artifact_path ≡ none) × (o.vector_count ≡ 0)

  record IsHonest (request : LlmJobRequest) (o : LlmOutcome) : Type 0 where
    same_request : o.request ≡ request
    usable : IsUsable o.request
    tells : Tells o.status o

module _ {F V : Type 0} (decode : Text → Option (LlmMessage F)) (sha256_hex : Text → Text)
    (embed : Text → Text → Text ⊎ ArtifactData V) where
  from_parsed :
      (body delivery_id : Text) (r : LlmJobRequest)
      → parse_llm_request decode sha256_hex body ≡ some r
      → parse_job_request_from_body decode sha256_hex body delivery_id ≡ r
  unfolding parse_job_request_from_body
  from_parsed body delivery_id r e = rw (e, parse_job_request_from_body) refl

  -- Whatever a message holds and however the embedding ends, the outcome is of the request that
  -- `parse_job_request_from_body` gives, whose ids and paths are not empty. If it says `ok`, then
  -- the embedding of the request's chunks has given the artifact that it names, with its counts;
  -- otherwise it has an error text, names no artifact and counts no vector.
  handle_llm_job-IsHonest :
      (bad_message body delivery_id : Text)
      → IsHonest embed
          (parse_job_request_from_body decode sha256_hex body delivery_id)
          (handle_llm_job decode sha256_hex embed bad_message body delivery_id)
  unfolding handle_llm_job
  handle_llm_job-IsHonest bad_message body delivery_id =
      let usable = parse_job_request_from_body-IsUsable decode sha256_hex body delivery_id in
      elim (Option-cases (parse_llm_request decode sha256_hex body)) [
        | inl bad ↦
            rw (bad, handle_llm_job)
              (record { same_request = refl; usable = usable; tells = (λ e. cc, refl, refl) })
        | inr (r, good) ↦
            let parsed = from_parsed body delivery_id r good in
            rw (good, handle_llm_job, parsed)
              (go r (embed r.chunks_path r.llm_profile) refl (rw parsed at usable))
      ]
    where
      go :
          (r : LlmJobRequest) (embedded : Text ⊎ ArtifactData V)
          → embed r.chunks_path r.llm_profile ≡ embedded
          → IsUsable r
          → IsHonest embed r
              (elim embedded [ inl exc ↦ failed r exc | inr artifact ↦ succeeded r artifact ])
      go r (inl exc) e u = record { same_request = refl; usable = u; tells = (λ h. cc, refl, refl) }
      go r (inr a) e u = record {
        same_request = refl;
        usable = u;
        tells = (a, e, refl, refl, refl, refl);
      }
