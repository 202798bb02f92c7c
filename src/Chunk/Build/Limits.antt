-- ===== src/Chunk/Build/Limits.antt =====
-- The chunks that `chunk_markdown` returns: their number of tokens and their indices.
use mathlib.Core.Path.{subst}
use docrunr.Base.{
  ℕ, suc, ◌+◌, ◌≤◌, ◌≡◌, inl, inr, Option, List, [], ◌∷◌, ◌++◌, arith, Text, length, is_empty,
  strip, Option-cases, Bool-cases, All, All-append,
}
use docrunr.Chunk.Span.{Span, Within}
use docrunr.Chunk.Windows.{FitsAlone}
use docrunr.Chunk.Section.{SectionPathState, build_section_path_states, path_for}
use docrunr.Chunk.Normalize.{normalize_span, enforce_max_tokens-Within}
use docrunr.Chunk.Config.{ChunkingConfig, ok, build_config, build_config-IsUsable}
use docrunr.Chunk.Build.{
  Chunk, Output, new_chunk, nothing_yet, is_seen, build_chunk, append_chunk, append_spans,
  final_spans, chunk_spans, packed_spans, chunk_markdown, source_id, splitter_version,
}

-- The n-th chunk has index n, counted from `n` on.
abbrev pub Indexed : ℕ → List Chunk → Type 0
Indexed n [] = Unit
Indexed n (c ∷ cs) = (c.chunk_index ≡ n) × Indexed (suc n) cs

Indexed-snoc :
    (n : ℕ) (cs : List Chunk) (c : Chunk)
    → Indexed n cs
    → c.chunk_index ≡ n + length cs
    → Indexed n (cs ++ c ∷ [])
Indexed-snoc n [] c h e = (omega arith, tt)
Indexed-snoc n (d ∷ cs) c h e = (h.0, Indexed-snoc (suc n) cs c h.1 (omega arith))

module _ (count_tokens : Text → ℕ) (sha256_hex : Text → Text) (limit : ℕ) where
  -- What a chunk promises: its counts are those of its text, and it keeps the limit.
  abbrev pub IsCounted : Chunk → Type 0
  IsCounted c =
      (c.token_count ≡ count_tokens c.text)
      × (c.char_count ≡ length c.text)
      × (c.token_count ≤ limit)

  -- The chunks so far are counted and numbered from 0.
  record IsGood (o : Output) : Type 0 where
    counted : All IsCounted o.chunks
    indexed : Indexed 0 o.chunks

  build_chunk-IsCounted :
      (index : ℕ) (id version : Text) (span : Span) (path : List Text)
      → Within count_tokens limit span
      → IsCounted (build_chunk count_tokens sha256_hex index id version span path)
        × ((build_chunk count_tokens sha256_hex index id version span path).chunk_index ≡ index)
  unfolding build_chunk new_chunk
  build_chunk-IsCounted index id version span path small = ground arith

  append_chunk-IsGood :
      (id version : Text) (span : Span) (path : List Text) (o : Output)
      → Within count_tokens limit span
      → IsGood o
      → IsGood (append_chunk count_tokens sha256_hex id version span path o)
  unfolding append_chunk
  append_chunk-IsGood id version span path o small h =
      let built = build_chunk-IsCounted (length o.chunks) id version span path small in
      elim (Bool-cases (is_seen span.text path o.seen_texts)) [
        | inl seen ↦ rw seen (record { counted = h.counted; indexed = h.indexed })
        | inr new ↦ rw new (record {
          counted = All-append IsCounted o.chunks _ h.counted (built.0, tt);
          indexed = Indexed-snoc 0 o.chunks _ h.indexed (omega (arith, built.1));
        })
      ]

  append_spans-IsGood :
      (states : List SectionPathState) (id version : Text) (spans : List Span) (o : Output)
      → All (Within count_tokens limit) spans
      → IsGood o
      → IsGood (append_spans count_tokens sha256_hex states id version spans o)
  unfolding append_spans
  append_spans-IsGood states id version [] o small h = h
  append_spans-IsGood states id version (s ∷ ss) o small h =
      append_spans-IsGood states id version ss _ small.1
        (append_chunk-IsGood id version s (path_for states s.start) o small.0 h)

module _ (count_tokens : Text → ℕ) (sha256_hex : Text → Text) (config : ChunkingConfig)
    (alone : FitsAlone count_tokens config.chunk_size_tokens)
    (ordered : config.chunk_size_tokens ≤ config.max_chunk_tokens) where
  final_spans-Within :
      (markdown : Text) (span : Span)
      → All
          (Within count_tokens config.max_chunk_tokens)
          (final_spans count_tokens sha256_hex config markdown span)
  unfolding final_spans
  final_spans-Within markdown span =
      elim (Option-cases (normalize_span count_tokens markdown span)) [
        | inl dropped ↦ rw (dropped, final_spans) tt
        | inr (s, kept) ↦
            rw (kept, final_spans)
              (enforce_max_tokens-Within count_tokens config.chunk_size_tokens
                config.max_chunk_tokens config.separators alone ordered markdown s)
      ]

  chunk_spans-IsGood :
      (markdown id version : Text) (spans : List Span) (o : Output)
      → IsGood count_tokens sha256_hex config.max_chunk_tokens o
      → IsGood count_tokens sha256_hex config.max_chunk_tokens
          (chunk_spans count_tokens sha256_hex config markdown id version spans o)
  unfolding chunk_spans
  chunk_spans-IsGood markdown id version [] o h = h
  chunk_spans-IsGood markdown id version (s ∷ ss) o h =
      chunk_spans-IsGood markdown id version ss _ (
        append_spans-IsGood count_tokens sha256_hex config.max_chunk_tokens
          (build_section_path_states markdown) id version
          (final_spans count_tokens sha256_hex config markdown s) o (final_spans-Within markdown s)
          h)

chunk_markdown-result :
    (count_tokens : Text → ℕ) (sha256_hex : Text → Text) (markdown : Text)
    (target_tokens : Option ℕ) (source_doc_id : Option Text) (config : Option ChunkingConfig)
    (active : ChunkingConfig)
    → build_config config target_tokens ≡ ok active
    → FitsAlone count_tokens active.chunk_size_tokens
    → (o : Output) × (chunk_markdown count_tokens sha256_hex markdown target_tokens source_doc_id
          config
        ≡ inr o)
      × All (IsCounted count_tokens sha256_hex active.max_chunk_tokens) o.chunks
      × Indexed 0 o.chunks
unfolding chunk_markdown
chunk_markdown-result count_tokens sha256_hex markdown target_tokens source_doc_id config active
      built alone =
    let usable = build_config-IsUsable config target_tokens built in
    let none_yet : IsGood count_tokens sha256_hex active.max_chunk_tokens nothing_yet = record {
      counted = tt;
      indexed = tt;
    } in
    elim (Bool-cases (is_empty (strip markdown))) [
      | inl blank ↦ (nothing_yet, rw (built, chunk_markdown, blank), tt, tt)
      | inr text ↦
          let good =
            chunk_spans-IsGood count_tokens sha256_hex active alone usable.ordered markdown
              (source_id count_tokens sha256_hex source_doc_id) (splitter_version active)
              (packed_spans count_tokens sha256_hex active markdown) nothing_yet none_yet in
          (
            chunk_spans count_tokens sha256_hex active markdown
                (source_id count_tokens sha256_hex source_doc_id) (splitter_version active)
                (packed_spans count_tokens sha256_hex active markdown) nothing_yet,
            rw (built, chunk_markdown, text),
            good.counted,
            good.indexed,
          )
    ]

-- If the configuration is accepted and every single character fits into `chunk_size_tokens`, then of
-- every result of `chunk_markdown` each chunk's counts are those of its text, each chunk has at most
-- `max_chunk_tokens` tokens, and their indices are 0, 1, 2 and so on. A document on which the
-- tokenizer or the encoding to UTF-8 raises has no result.
pub chunk_markdown_limits :
    (count_tokens : Text → ℕ) (sha256_hex : Text → Text) (markdown : Text)
    (target_tokens : Option ℕ) (source_doc_id : Option Text) (config : Option ChunkingConfig)
    (active : ChunkingConfig) (o : Output)
    → build_config config target_tokens ≡ ok active
    → FitsAlone count_tokens active.chunk_size_tokens
    → chunk_markdown count_tokens sha256_hex markdown target_tokens source_doc_id config ≡ inr o
    → All (IsCounted count_tokens sha256_hex active.max_chunk_tokens) o.chunks × Indexed 0 o.chunks
chunk_markdown_limits count_tokens sha256_hex markdown target_tokens source_doc_id config active o
      built alone result =
    let found =
      chunk_markdown-result count_tokens sha256_hex markdown target_tokens source_doc_id config
        active built alone in
    let same : found.0 ≡ o = cc (found.1, result) in
    (
      subst (λ p. All (IsCounted count_tokens sha256_hex active.max_chunk_tokens) p.chunks) same
          found.2,
      subst (λ p. Indexed 0 p.chunks) same found.3,
    )
