-- ===== src/Chunk/Build/Tiling.antt =====
-- The spans from which the chunks are built tile the document.
use docrunr.Base.{ℕ, Text}
use docrunr.Chunk.Span.{Covers, flat_map-Covers}
use docrunr.Chunk.Recursive.{split_recursive, split_recursive-Covers}
use docrunr.Chunk.Pack.{pack_spans, pack_spans-Covers}
use docrunr.Chunk.Section.{build_section_path_states}
use docrunr.Chunk.Boundary.{split_on_section_boundaries, split_on_section_boundaries-Covers}
use docrunr.Chunk.Config.{ChunkingConfig}
use docrunr.Chunk.Build.{packed_spans}

module _ (count_tokens : Text → ℕ) (sha256_hex : Text → Text) where
  -- For every document, configuration and tokenizer, the texts of the packed spans, one behind the
  -- other, are the document, and the offsets of each are where its text stands in the document.
  pub packed_spans-Covers :
      (config : ChunkingConfig) (markdown : Text)
      → Covers markdown 0 (packed_spans count_tokens sha256_hex config markdown)
  unfolding packed_spans
  packed_spans-Covers config markdown =
      let split =
        split_recursive count_tokens config.chunk_size_tokens config.max_chunk_tokens
          config.separators in
      let pack = pack_spans count_tokens config.chunk_size_tokens config.max_chunk_tokens in
      flat_map-Covers (λ seed. pack (split seed))
        (λ s sized.
          pack_spans-Covers count_tokens config.chunk_size_tokens config.max_chunk_tokens s.text
            s.start (split s)
            (split_recursive-Covers count_tokens config.chunk_size_tokens config.max_chunk_tokens
              config.separators s sized))
        (split_on_section_boundaries markdown (build_section_path_states markdown))
        (split_on_section_boundaries-Covers markdown (build_section_path_states markdown))
