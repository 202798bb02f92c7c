-- ===== src/Tests/Embedding.antt =====
-- The worker for embeddings at small inputs: a vector is the length of its text.
use docrunr.Base.{
  strip, true, ℕ, ◌+◌, ◌≡◌, refl, Option, none, some, ◌⊎◌, inr, List, [], ◌∷◌, map, Text, codes,
  length, ℤ, pos, starts_with,
}
use docrunr.JobStatus
use docrunr.JobStore.Event.{Floats, Value, none_value, str_value, int_value}
use docrunr.Consumer.Broker.{LlmJob, returns, raises, Broker}
use docrunr.Consumer.Delivery.{Payload, Outcome, result_payload, llm_followup}
use docrunr.Llm.Client.{LlmSettings, EmbeddingCall, EmbeddingResult, infer_provider}
use docrunr.Llm.Request.{LlmMessage}
use docrunr.Llm.Embeddings.{
  Piece, chunk, pieces, ArtifactData, generate_embeddings, extract_texts, load_chunks,
}
use docrunr.Llm.Embeddings.Batches.{total}
use docrunr.Llm.Embeddings.Pairs.{IsPaired, generate_embeddings-IsPaired}
use docrunr.Llm.Handler.{succeeded, handle_llm_job}
use docrunr.Llm.Consumer.{LlmDelivery, take_llm_message}
use docrunr.Llm.Consumer.Settle.{take_llm_message-Settled}
use docrunr.Consumer.Hoare.{Post}
use docrunr.Consumer.Conditions.{Failed, Settled}
use docrunr.Llm.Handler.Followup.{message_of, request_of, handle_llm_job-llm_followup}

abbrev counting_floats : Floats ℕ
counting_floats = record {
  zero_float = 0;
  add_float = λ a b. a + b;
  truncate = pos;
  of_int = λ n. 0;
  parse_float = λ t. none;
  print_float = λ x. [];
}

abbrev no_digits : ℤ → Text
no_digits n = []

abbrev text_size : Text → ℕ
text_size t = length t

abbrev sizes : EmbeddingCall → Text ⊎ (List ℕ × ℕ)
sizes call = inr (map text_size call.input, total text_size call.input)

abbrev direct : LlmSettings
direct = record { litellm_base_url = []; litellm_api_key = [] }

abbrev answer_sizes : List Text → Text ⊎ EmbeddingResult ℕ
answer_sizes batch = inr (record {
  vectors = map text_size batch;
  llm_profile = codes "m";
  provider = codes "p";
  token_count = 0;
})

abbrev artifact : ArtifactData ℕ
artifact = record {
  llm_profile = codes "ollama/m";
  provider = codes "ollama";
  chunk_count = 2;
  vector_count = 1;
  token_count = 2;
  embeddings = record { index = 0; text = codes "ab"; vector = 2 } ∷ [];
  artifact_path = codes "output/a.embeddings.json";
}

provider_inferred : infer_provider (codes "ollama/m") ≡ codes "ollama"
unfolding infer_provider
provider_inferred = refl

generate_embeddings-IsPaired_example : IsPaired text_size text_size 2 (codes "ab" ∷ []) artifact
unfolding generate_embeddings extract_texts load_chunks starts_with
generate_embeddings-IsPaired_example =
    generate_embeddings-IsPaired text_size text_size counting_floats no_digits sizes direct
      (codes "output/a.json") (codes "ollama/m") (λ call small. refl) refl
      (pieces (
        chunk (str_value (codes " ab ")) none_value
        ∷ chunk none_value (str_value (codes " "))
        ∷ []))
      none
      (chunk (str_value (codes " ab ")) none_value ∷ chunk none_value (str_value (codes " ")) ∷ [])
      (codes "ab" ∷ []) artifact refl refl refl

abbrev one_text : List (Piece ℕ)
one_text = chunk (str_value (codes " ab ")) none_value ∷ []

abbrev no_message : Text → Option (LlmMessage ℕ)
no_message body = none

abbrev whole_text : Text → Text
whole_text t = t

abbrev always : Text → Text → Text ⊎ ArtifactData ℕ
always chunks_path llm_profile = inr artifact

-- A redelivered message that is no job: its receipt is stored and its error published, and the
-- acknowledgement fails.
abbrev again : LlmDelivery
again = record { queue_name = codes "docrunr.llm"; body = codes "{"; redelivered = true }

abbrev unreliable : Broker
unreliable = record { is_open = true; answers = returns ∷ raises (codes "busy") ∷ []; trace = [] }

take_llm_message-Settled_example :
    Post
      (take_llm_message
        (λ t. true)
        no_message
        whole_text
        always
        (λ o. codes "{}")
        again
        (codes "bad")
        []
        unreliable)
      Settled
      Failed
take_llm_message-Settled_example =
    take_llm_message-Settled (λ t. true) no_message whole_text always (λ o. codes "{}") again
      (codes "bad") [] unreliable refl

abbrev extracted : Outcome ℕ
extracted = record {
  result_json = [];
  result = some (record {
    job_id = some (str_value (codes "j"));
    filename = some (str_value (codes "f.pdf"));
    source_path = some (str_value (codes "input/f.pdf"));
    llm_profile = str_value (codes "ollama/m");
    chunks_path = str_value (codes "output/a.json");
    priority = int_value (pos 1);
  });
  status = JobStatus.ok;
}

abbrev followup : LlmJob
followup = record {
  extract_job_id = codes "j";
  filename = codes "f.pdf";
  source_path = codes "input/f.pdf";
  chunks_path = codes "output/a.json";
  llm_profile = codes "ollama/m";
  priority = 1;
}

abbrev plain : Value ℕ → Text
plain (str_value text) = text
plain _ = []

abbrev no_payload : Text → Option (Payload ℕ)
no_payload text = none

abbrev as_followup : Text → Option (LlmMessage ℕ)
as_followup body = some (message_of (codes "l") followup)

handle_llm_job-llm_followup_example :
    (llm_followup plain no_payload extracted ≡ some followup)
    × (handle_llm_job as_followup whole_text always [] (codes "{}") []
        ≡ succeeded (request_of (codes "l") followup) artifact)
unfolding result_payload strip
handle_llm_job-llm_followup_example =
    handle_llm_job-llm_followup plain no_payload as_followup whole_text always (λ t. refl)
      (codes "j") (codes "f.pdf") (codes "input/f.pdf") (codes "output/a.json") (codes "ollama/m") 1
      extracted (codes "l") [] (codes "{}") [] refl refl refl refl refl refl refl refl refl
