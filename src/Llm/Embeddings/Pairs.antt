-- ===== src/Llm/Embeddings/Pairs.antt =====
-- The artifact pairs each text with its vector.
use mathlib.Core.Path.{subst}
use docrunr.Base.{
  ℕ, zero, suc, ◌≤◌, ◌≡◌, refl, ap, ◌∙◌, false, Option, none, some, ◌⊎◌, inr, List, [], ◌∷◌, map,
  Text, is_empty, length, drop, ℤ, arith,
}
use docrunr.JobStore.Event.{Floats}
use docrunr.Llm.Client.{
  LlmSettings, EmbeddingCall, create_embeddings, embedding_call, result_of, infer_provider,
}
use docrunr.Llm.Embeddings.{
  Piece, ChunkFile, load_chunks, batch_size, Collected, nothing_collected, Entry, text_at, entries,
  ArtifactData, extract_texts, after_loop, embed_texts, embed_chunks, generate_embeddings,
  derive_artifact_path, write_artifact,
}
use docrunr.Llm.Embeddings.Batches.{total, Answers, embed_from-map}

embedding_call-input :
    (settings : LlmSettings) (texts : List Text) (llm_profile : Text)
    → (embedding_call settings texts llm_profile).input ≡ texts
unfolding embedding_call
embedding_call-input settings texts llm_profile = ground arith

text_at-drop :
    (all : List Text) (i : ℕ) (t : Text) (ts : List Text)
    → drop i all ≡ t ∷ ts
    → (text_at all i ≡ t) × (drop (suc i) all ≡ ts)
text_at-drop [] zero t ts h = absurd (cc)
text_at-drop [] (suc i) t ts h = absurd (cc)
text_at-drop (x ∷ xs) zero t ts h = (cc, cc)
text_at-drop (x ∷ xs) (suc i) t ts h = text_at-drop xs i t ts h

module _ {V : Type 0} (vec : Text → V) (tokens : Text → ℕ) where
  -- Each text with its place and its vector.
  abbrev pub indexed : ℕ → List Text → List (Entry V)
  indexed i [] = []
  indexed i (t ∷ ts) = record { index = i; text = t; vector = vec t } ∷ indexed (suc i) ts

  entries-map :
      (all : List Text) (i : ℕ) (rest : List Text)
      → drop i all ≡ rest
      → entries all i (map vec rest) ≡ indexed i rest
  unfolding entries
  entries-map all i [] h = refl
  entries-map all i (t ∷ ts) h =
      let here = text_at-drop all i t ts h in rw (here.0, entries-map all (suc i) ts here.1) refl

  -- The service answers each of at most 64 texts by itself.
  abbrev pub Serves : (EmbeddingCall → Text ⊎ (List V × ℕ)) → Type 0
  Serves litellm =
      (call : EmbeddingCall)
      → length call.input ≤ batch_size
      → litellm call ≡ inr (map vec call.input, total tokens call.input)

  module _ (litellm : EmbeddingCall → Text ⊎ (List V × ℕ)) (settings : LlmSettings)
      (llm_profile : Text) (serves : Serves litellm) (named : is_empty llm_profile ≡ false) where
    create_embeddings-Answers :
        Answers vec tokens llm_profile
          (infer_provider llm_profile)
          (λ batch. create_embeddings litellm settings batch llm_profile)
    unfolding create_embeddings result_of
    create_embeddings-Answers batch small filled =
        let call = embedding_call settings batch llm_profile in
        let input = embedding_call-input settings batch llm_profile in
        let served : litellm call ≡ inr (map vec batch, total tokens batch) =
          subst (λ xs. litellm call ≡ inr (map vec xs, total tokens xs)) input
            (serves call (rw input small)) in
        rw (named, served, result_of) refl

  -- The artifact for the texts, out of `chunk_count` chunks.
  pub record IsPaired (chunk_count : ℕ) (texts : List Text) (a : ArtifactData V) : Type 0 where
    pub pairs : a.embeddings ≡ indexed 0 texts
    pub one_each : a.vector_count ≡ length texts
    pub chunks : a.chunk_count ≡ chunk_count
    pub spent : a.token_count ≡ total tokens texts

  right_eq : (x y : ArtifactData V) → ◌≡◌ {A = Text ⊎ ArtifactData V} (inr x) (inr y) → x ≡ y
  right_eq x y e = cc

  length-map : (ts : List Text) → length (map vec ts) ≡ length ts
  length-map [] = refl
  length-map (t ∷ ts) = omega (arith, length-map ts)

  module _ {F : Type 0} (floats : Floats F) (print_int : ℤ → Text)
      (litellm : EmbeddingCall → Text ⊎ (List V × ℕ)) (settings : LlmSettings)
      (chunks_path llm_profile : Text) (serves : Serves litellm)
      (named : is_empty llm_profile ≡ false) where
    write_artifact-IsPaired :
        (chunk_count : ℕ) (texts : List Text) (c : Collected V) (path writes : Option Text)
        (a : ArtifactData V)
        → c.vectors ≡ map vec texts
        → c.token_count ≡ total tokens texts
        → write_artifact floats print_int litellm settings chunks_path llm_profile chunk_count texts
            c path writes
          ≡ inr a
        → IsPaired chunk_count texts a
    write_artifact-IsPaired chunk_count texts c none writes a hv ht e = absurd (cc)
    write_artifact-IsPaired chunk_count texts c (some p) (some m) a hv ht e = absurd (cc)
    write_artifact-IsPaired chunk_count texts c (some p) none a hv ht e =
        subst (IsPaired chunk_count texts) (right_eq _ a e) (record {
          pairs = ap (entries texts 0) hv ∙ entries-map texts 0 texts refl;
          one_each = ap (length {A = V}) hv ∙ length-map texts;
          chunks = refl;
          spent = ht;
        })

    embed_texts-IsPaired :
        (chunk_count : ℕ) (writes : Option Text) (texts : List Text) (a : ArtifactData V)
        → embed_texts floats print_int litellm settings chunks_path llm_profile chunk_count writes
            texts
          ≡ inr a
        → IsPaired chunk_count texts a
    unfolding embed_texts after_loop
    embed_texts-IsPaired chunk_count writes [] a e = absurd (cc)
    embed_texts-IsPaired chunk_count writes (t ∷ ts) a e =
        let create = λ (batch : List Text). create_embeddings litellm settings batch llm_profile in
        let all =
          embed_from-map vec tokens llm_profile (infer_provider llm_profile) create (t ∷ ts)
            (suc (length (t ∷ ts))) 0 (nothing_collected create (t ∷ ts))
            (create_embeddings-Answers litellm settings llm_profile serves named) (omega arith) in
        write_artifact-IsPaired chunk_count (t ∷ ts) _ (derive_artifact_path chunks_path) writes a
          refl (omega arith) (rw (all, after_loop) at e)

    -- If the service answers each of at most 64 texts by itself, then an artifact that is written
    -- holds, for each text that is read from the chunks and in their order, its place, the text
    -- and its vector, and the counts are those of the chunks, of the texts and of all tokens; the
    -- batches do not show.
    pub generate_embeddings-IsPaired :
        (file : ChunkFile F) (writes : Option Text) (chunks : List (Piece F)) (texts : List Text)
        (a : ArtifactData V)
        → load_chunks file ≡ inr chunks
        → extract_texts floats print_int chunks ≡ inr texts
        → generate_embeddings floats print_int litellm settings chunks_path llm_profile file writes
          ≡ inr a
        → IsPaired (length chunks) texts a
    unfolding generate_embeddings embed_chunks
    generate_embeddings-IsPaired file writes chunks texts a loaded read e =
        embed_texts-IsPaired (length chunks) writes texts a
          (rw (loaded, generate_embeddings, read, embed_chunks) at e)
