-- ===== src/Llm/Client.antt =====
-- `create_embeddings` of worker-llm/src/docrunr_worker_llm/litellm_client.py. The library is
-- `litellm`: its error, or the vectors and the count of tokens of its response.
use docrunr.Base.{
  ℕ, Option, none, some, ◌⊎◌, inl, inr, List, [], ◌∷◌, ◌++◌, Text, codes, is_empty, ◌==◌, Bool,
  false, ◌||◌, if◌then◌else◌,
}

pub record LlmSettings : Type 0 where
  pub litellm_base_url : Text
  pub litellm_api_key : Text

pub record EmbeddingCall : Type 0 where
  pub model : Text
  pub input : List Text
  pub api_base : Option Text
  pub api_key : Option Text

pub record EmbeddingResult (V : Type 0) : Type 0 where
  pub vectors : List V
  pub llm_profile : Text
  pub provider : Text
  pub token_count : ℕ

abbrev or_none : Text → Option Text
or_none [] = none
or_none (c ∷ cs) = some (c ∷ cs)

abbrev or_dummy : Text → Text
or_dummy [] = codes "sk-not-needed"
or_dummy (c ∷ cs) = c ∷ cs

abbrev has_slash : Text → Bool
has_slash [] = false
has_slash (c ∷ cs) = (c == b'/') || has_slash cs

-- `text.split("/", 1)[0]`
abbrev before_slash : Text → Text
before_slash [] = []
before_slash (c ∷ cs) = let rest = before_slash cs in if c == b'/' then [] else c ∷ rest

unfoldable pub infer_provider : Text → Text
infer_provider llm_profile =
    if has_slash llm_profile then before_slash llm_profile else codes "openai"

-- A proxy takes the profile behind `openai/`, and wants some key.
unfoldable pub embedding_call : LlmSettings → List Text → Text → EmbeddingCall
embedding_call settings texts llm_profile = elim settings.litellm_base_url [
  | [] ↦ record {
    model = llm_profile;
    input = texts;
    api_base = none;
    api_key = or_none settings.litellm_api_key;
  }
  | c ∷ cs ↦ record {
    model = codes "openai/" ++ llm_profile;
    input = texts;
    api_base = some settings.litellm_base_url;
    api_key = some (or_dummy settings.litellm_api_key);
  }
]

module _ {V : Type 0} (litellm : EmbeddingCall → Text ⊎ (List V × ℕ)) where
  unfoldable pub result_of : Text → Text ⊎ (List V × ℕ) → Text ⊎ EmbeddingResult V
  unfolding infer_provider
  result_of llm_profile (inl message) = inl message
  result_of llm_profile (inr (vectors, token_count)) = inr (record {
    vectors = vectors;
    llm_profile = llm_profile;
    provider = infer_provider llm_profile;
    token_count = token_count;
  })

  unfoldable pub create_embeddings : LlmSettings → List Text → Text → Text ⊎ EmbeddingResult V
  unfolding result_of embedding_call
  create_embeddings settings texts llm_profile =
      if is_empty llm_profile
      then inl (codes "llm_profile is required but was empty")
      else result_of llm_profile (litellm (embedding_call settings texts llm_profile))
