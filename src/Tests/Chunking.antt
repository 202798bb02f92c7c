-- ===== src/Tests/Chunking.antt =====
-- Chunking at a small document; code points stand for tokens.
use mathlib.Core.List.{flat_map}
use docrunr.Base.{
  ◌≡◌, refl, inl, inr, none, some, List, [], ◌∷◌, arith, Text, codes, length, All, strip,
  split_lines, find?,
}
use docrunr.Normalize.{normalize_chunk_text}
use docrunr.Chunk.Windows.{
  FitsAlone, best_token_window_end, IsWindowEnd, best_token_window_end-IsWindowEnd,
}
use docrunr.Chunk.Span.{Covers}
use docrunr.Chunk.Separator.{split_on_separator}
use docrunr.Chunk.Recursive.{split_recursive}
use docrunr.Chunk.Pack.{pack_spans}
use docrunr.Chunk.Heading.{fence_marker, atx_heading}
use docrunr.Chunk.Section.{path_for, build_section_path_states, rstrip_newline}
use docrunr.Chunk.Section.Order.{Ascending, build_section_path_states-Ascending}
use docrunr.Chunk.Section.Resolve.{last_path, path_for-eq-last_path}
use docrunr.Chunk.Boundary.{split_on_section_boundaries}
use docrunr.Chunk.Normalize.{normalize_span, enforce_max_tokens}
use docrunr.Chunk.Config.{ChunkingConfig, build_config}
use docrunr.Chunk.Build.{Output, Chunk, nothing_yet, chunk_markdown, packed_spans}
use docrunr.Chunk.Build.Limits.{IsCounted, Indexed, chunk_markdown_limits}
use docrunr.Chunk.Build.Tiling.{packed_spans-Covers}
use docrunr.Chunk.Build.Distinct.{Distinct, chunk_markdown-Distinct}

abbrev document : Text
document = codes "# A\n\none two.\n\n## B\n\nthree"

abbrev small_config : ChunkingConfig
small_config = record {
  chunk_size_tokens = 6;
  chunk_overlap_tokens = 0;
  max_chunk_tokens = 8;
  separators = codes "\n\n" ∷ codes " " ∷ [] ∷ [];
}

abbrev same_text : Text → Text
same_text t = t

one_token : FitsAlone length 6
one_token text h = omega (arith, h)

abbrev small_output : Output
small_output = elim (chunk_markdown length same_text document none none (some small_config)) [
  | inl e ↦ nothing_yet
  | inr o ↦ o
]

chunk_texts : List Chunk → List Text
chunk_texts [] = []
chunk_texts (c ∷ cs) = c.text ∷ chunk_texts cs

texts_of_document :
    chunk_texts small_output.chunks
    ≡ codes "# A" ∷ codes "one" ∷ codes "two." ∷ codes "## B" ∷ codes "three" ∷ []
unfolding chunk_markdown chunk_texts build_config strip flat_map split_on_section_boundaries
    build_section_path_states split_lines fence_marker rstrip_newline atx_heading pack_spans
    split_recursive split_on_separator find? normalize_span normalize_chunk_text enforce_max_tokens
texts_of_document = refl

output_of_document :
    chunk_markdown length same_text document none none (some small_config) ≡ inr small_output
unfolding chunk_markdown build_config strip
output_of_document = refl

chunk_markdown_limits_example :
    All (IsCounted length same_text 8) small_output.chunks × Indexed 0 small_output.chunks
unfolding build_config
chunk_markdown_limits_example =
    chunk_markdown_limits length same_text document none none (some small_config) small_config
      small_output refl one_token output_of_document

packed_spans-Covers_example :
    Covers document 0 (packed_spans length same_text small_config document)
packed_spans-Covers_example = packed_spans-Covers length same_text small_config document

chunk_markdown-Distinct_example : Distinct small_output.chunks
chunk_markdown-Distinct_example =
    chunk_markdown-Distinct length same_text document none none (some small_config) small_output
      output_of_document

build_section_path_states-Ascending_example :
    Ascending 0 (build_section_path_states document) (length document)
build_section_path_states-Ascending_example = build_section_path_states-Ascending document

path_for-eq-last_path_example :
    path_for (build_section_path_states document) 20
    ≡ last_path [] (build_section_path_states document) 20
path_for-eq-last_path_example =
    path_for-eq-last_path 0 (length document) (build_section_path_states document) 20
      (build_section_path_states-Ascending document)

best_token_window_end-IsWindowEnd_example :
    IsWindowEnd length document 2 6 (best_token_window_end length document 2 6)
best_token_window_end-IsWindowEnd_example = best_token_window_end-IsWindowEnd length document 2 6
