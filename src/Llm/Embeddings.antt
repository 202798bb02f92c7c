-- ===== src/Llm/Embeddings.antt =====
-- `generate_embeddings` of worker-llm/src/docrunr_worker_llm/embeddings.py. The file of chunks is
-- given as `json.loads` reads it.
pub mod Batches
pub mod Pairs
use docrunr.Base.{
  ℕ, zero, suc, ◌+◌, Bool, true, false, Option, none, some, ◌⊎◌, inl, inr, List, [], ◌∷◌, ◌++◌,
  Text, codes, is_empty, strip, length, slice, ltb, ℤ, if◌then◌else◌, path_tail, root_parts,
  join_parts, stem_of,
}
use docrunr.JobStore.Event.{Value, str_value, Floats}
use docrunr.Api.Repository.{truthy}
use docrunr.Llm.Client.{LlmSettings, EmbeddingCall, EmbeddingResult, create_embeddings}

-- A chunk, or a piece that has no `get`.
pub data Piece (F : Type 0) : Type 0 where
  chunk : Value F → Value F → Piece F
  no_object : Piece F

-- A list, an object with the value at `chunks`, another value, or what the reading raises.
pub data ChunkFile (F : Type 0) : Type 0 where
  pieces : List (Piece F) → ChunkFile F
  with_chunks : List (Piece F) → ChunkFile F
  without_chunks other_shape : ChunkFile F
  unreadable : Text → ChunkFile F

unfoldable pub load_chunks : {F : Type 0} → ChunkFile F → Text ⊎ List (Piece F)
load_chunks (pieces chunks) = inr chunks
load_chunks (with_chunks chunks) = inr chunks
load_chunks without_chunks = inl (codes "Unexpected chunk JSON shape")
load_chunks other_shape = inl (codes "Unexpected chunk JSON shape")
load_chunks (unreadable message) = inl message

abbrev batch_size : ℕ
batch_size = 64

pub record Collected (V : Type 0) : Type 0 where
  pub vectors : List V
  pub llm_profile : Text
  pub provider : Text
  pub token_count : ℕ

pub data Loop (V : Type 0) : Type 0 where
  out_of_fuel : Loop V
  failed : Text → Loop V
  collected : Collected V → Loop V

module _ {V : Type 0} (create : List Text → Text ⊎ EmbeddingResult V) (texts : List Text) where
  abbrev pub nothing_collected : Collected V
  nothing_collected = record { vectors = []; llm_profile = []; provider = []; token_count = 0 }

  abbrev pub extend : Collected V → EmbeddingResult V → Collected V
  extend acc result = record {
    vectors = acc.vectors ++ result.vectors;
    llm_profile = result.llm_profile;
    provider = result.provider;
    token_count = acc.token_count + result.token_count;
  }

  -- `for i in range(0, len(texts), BATCH_SIZE)`
  pub embed_from : ℕ → ℕ → Collected V → Loop V
  embed_from zero i acc = out_of_fuel
  embed_from (suc fuel) i acc = elim (ltb i (length texts)) [
    | false ↦ collected acc
    | true ↦ elim (create (slice texts i (i + batch_size))) [
      | inl message ↦ failed message
      | inr result ↦ embed_from fuel (i + batch_size) (extend acc result)
    ]
  ]

pub record Entry (V : Type 0) : Type 0 where
  pub index : ℕ
  pub text : Text
  pub vector : V

-- `texts[i] if i < len(texts) else ""`
abbrev pub text_at : List Text → ℕ → Text
text_at [] i = []
text_at (t ∷ ts) zero = t
text_at (t ∷ ts) (suc i) = text_at ts i

pub entries : {V : Type 0} → List Text → ℕ → List V → List (Entry V)
entries texts i [] = []
entries texts i (v ∷ vs) =
    record { index = i; text = text_at texts i; vector = v } ∷ entries texts (suc i) vs

-- `p.with_suffix(".embeddings.json")` of the parts behind the root
abbrev pub embeddings_name : List Text → Option (List Text)
embeddings_name [] = none
embeddings_name (name ∷ []) = some ((stem_of name ++ codes ".embeddings.json") ∷ [])
embeddings_name (p ∷ q ∷ ps) = elim (embeddings_name (q ∷ ps)) [
  | none ↦ none
  | some parts ↦ some (p ∷ parts)
]

abbrev root_text : List Text → Text
root_text [] = []
root_text (root ∷ more) = root

-- `none` stands for the `ValueError` of an empty name.
unfoldable pub derive_artifact_path : Text → Option Text
unfolding path_tail join_parts stem_of
derive_artifact_path chunks_path = elim (embeddings_name (path_tail chunks_path)) [
  | none ↦ none
  | some parts ↦ some (root_text (root_parts chunks_path) ++ join_parts parts)
]

-- What is written. A vector is opaque, so `dimensions`, the length of the first one, is left out.
pub record ArtifactData (V : Type 0) : Type 0 where
  pub llm_profile : Text
  pub provider : Text
  pub chunk_count : ℕ
  pub vector_count : ℕ
  pub token_count : ℕ
  pub embeddings : List (Entry V)
  pub artifact_path : Text

module _ {F : Type 0} (floats : Floats F) (print_int : ℤ → Text) where
  -- `chunk.get("text") or chunk.get("content") or ""`
  text_value : Value F → Value F → Value F
  unfolding truthy
  text_value text content =
      if truthy floats print_int text
      then text
      else if truthy floats print_int content
      then content
      else str_value []

  add_text : Value F → List Text → List Text
  unfolding strip
  add_text (str_value text) rest = if is_empty (strip text) then rest else strip text ∷ rest
  add_text _ rest = rest

  -- The texts behind the first piece, or an `AttributeError`.
  unfoldable pub extract_texts : List (Piece F) → Text ⊎ List Text
  unfolding text_value add_text
  extract_texts [] = inr []
  extract_texts (no_object ∷ rest) = inl (codes "AttributeError")
  extract_texts (chunk text content ∷ rest) = elim (extract_texts rest) [
    | inl message ↦ inl message
    | inr texts ↦ inr (add_text (text_value text content) texts)
  ]

module _ {F V : Type 0} (floats : Floats F) (print_int : ℤ → Text)
    (litellm : EmbeddingCall → Text ⊎ (List V × ℕ)) (settings : LlmSettings)
    (chunks_path llm_profile : Text) where
  -- What is written, and where; `writes` is how the writing ends.
  abbrev write_artifact :
      ℕ → List Text → Collected V → Option Text → Option Text → Text ⊎ ArtifactData V
  write_artifact chunk_count texts c none writes = inl (codes "empty name")
  write_artifact chunk_count texts c (some path) (some message) = inl message
  write_artifact chunk_count texts c (some path) none = inr (record {
    llm_profile = c.llm_profile;
    provider = c.provider;
    chunk_count = chunk_count;
    vector_count = length c.vectors;
    token_count = c.token_count;
    embeddings = entries texts 0 c.vectors;
    artifact_path = path;
  })

  pub after_loop : ℕ → List Text → Option Text → Loop V → Text ⊎ ArtifactData V
  unfolding derive_artifact_path entries
  after_loop chunk_count texts writes out_of_fuel = inl (codes "out of fuel")
  after_loop chunk_count texts writes (failed message) = inl message
  after_loop chunk_count texts writes (collected c) =
      write_artifact chunk_count texts c (derive_artifact_path chunks_path) writes

  embed_texts : ℕ → Option Text → List Text → Text ⊎ ArtifactData V
  unfolding after_loop embed_from create_embeddings
  embed_texts chunk_count writes [] = inl (codes "No embeddable text found")
  embed_texts chunk_count writes (t ∷ ts) = after_loop chunk_count (t ∷ ts) writes (
      embed_from (λ batch. create_embeddings litellm settings batch llm_profile) (t ∷ ts)
        (suc (length (t ∷ ts))) 0
        (nothing_collected (λ batch. create_embeddings litellm settings batch llm_profile)
          (t ∷ ts)))

  embed_chunks : Option Text → List (Piece F) → Text ⊎ ArtifactData V
  unfolding embed_texts extract_texts
  embed_chunks writes chunks = elim (extract_texts floats print_int chunks) [
    | inl message ↦ inl message
    | inr texts ↦ embed_texts (length chunks) writes texts
  ]

  unfoldable pub generate_embeddings : ChunkFile F → Option Text → Text ⊎ ArtifactData V
  unfolding embed_chunks load_chunks
  generate_embeddings file writes = elim (load_chunks file) [
    | inl message ↦ inl message
    | inr chunks ↦ embed_chunks writes chunks
  ]
