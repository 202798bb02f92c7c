-- ===== src/Chunk/Build.antt =====
-- `chunk_markdown` and `_append_chunk` of core/src/docrunr/chunk.py, with `derive_source_doc_id`,
-- `splitter_version` and the class `Chunk` of core/src/docrunr/models.py. The tokenizer and
-- SHA-256 are libraries, so `count_tokens` and `sha256_hex` are parameters, which are total: a call
-- that the tokenizer ends by a `ValueError`, since a text spells a special token, or that the
-- encoding to UTF-8 ends, since a text has a lone surrogate, has no result and is not modelled. The
-- log line has no effect on the result.
pub mod Limits
pub mod Distinct
pub mod Tiling
use mathlib.Core.List.{flat_map}
use docrunr.Base.{
  ℕ, ◌+◌, ◌⊎◌, inl, inr, Bool, true, false, ◌&&◌, ◌||◌, Option, none, some, List, [], ◌∷◌, ◌++◌,
  Text, codes, length, take, ltb, ◌==◌, if◌then◌else◌, is_empty, text_eq, strip, decimal,
}
use docrunr.Normalize.{normalize_for_comparison}
use docrunr.Chunk.Span.{Span}
use docrunr.Chunk.Recursive.{split_recursive}
use docrunr.Chunk.Pack.{pack_spans}
use docrunr.Chunk.Section.{SectionPathState, build_section_path_states, path_for}
use docrunr.Chunk.Boundary.{split_on_section_boundaries}
use docrunr.Chunk.Normalize.{normalize_span, enforce_max_tokens}
use docrunr.Chunk.Config.{ChunkingConfig, Checked, ok, err, build_config, ConfigError}

pub record Chunk : Type 0 where
  pub chunk_id : Text
  pub source_doc_id : Text
  pub chunk_index : ℕ
  pub text : Text
  pub token_count : ℕ
  pub char_count : ℕ
  pub splitter_version : Text
  pub start_offset : ℕ
  pub end_offset : ℕ
  pub section_path : List Text

-- `Chunk.__post_init__`
unfoldable pub new_chunk : Chunk → Chunk
new_chunk c =
    if (c.end_offset == 0) && ltb 0 c.char_count
    then record c { end_offset = c.start_offset + c.char_count }
    else c

-- `a == b` of two section paths.
unfoldable pub path_eq : List Text → List Text → Bool
unfolding text_eq
path_eq [] [] = true
path_eq (a ∷ as') (b ∷ bs) = text_eq a b && path_eq as' bs
path_eq _ _ = false

-- Membership in `seen_texts`, a set of texts with their section paths.
unfoldable pub is_seen : Text → List Text → List (Text × List Text) → Bool
unfolding path_eq
is_seen text path [] = false
is_seen text path ((t, p) ∷ seen) = (text_eq t text && path_eq p path) || is_seen text path seen

-- `chunks`, `seen_texts` and `duplicate_count` of `chunk_markdown`.
pub record Output : Type 0 where
  pub chunks : List Chunk
  pub seen_texts : List (Text × List Text)
  pub duplicate_count : ℕ

abbrev pub nothing_yet : Output
nothing_yet = record { chunks = []; seen_texts = []; duplicate_count = 0 }

unfoldable pub splitter_version : ChunkingConfig → Text
unfolding decimal
splitter_version config =
    codes "recursive_v1_token"
    ++ (decimal config.chunk_size_tokens
        ++ (codes "_overlap" ++ decimal config.chunk_overlap_tokens))

module _ (count_tokens : Text → ℕ) (sha256_hex : Text → Text) where
  pub derive_source_doc_id : Text → Text
  derive_source_doc_id source =
      codes "doc_" ++ take 16 (sha256_hex (normalize_for_comparison source))

  -- The text and the offsets come from the span, the position from the length of the list.
  pub build_chunk : ℕ → Text → Text → Span → List Text → Chunk
  unfolding new_chunk
  build_chunk index source_doc_id split_ver span section_path = new_chunk (record {
    chunk_id = sha256_hex (source_doc_id ++ (codes "|" ++ normalize_for_comparison span.text));
    source_doc_id = source_doc_id;
    chunk_index = index;
    text = span.text;
    token_count = count_tokens span.text;
    char_count = length span.text;
    splitter_version = split_ver;
    start_offset = span.start;
    end_offset = span.end;
    section_path = section_path;
  })

  pub append_chunk : Text → Text → Span → List Text → Output → Output
  unfolding build_chunk is_seen
  append_chunk source_doc_id split_ver span section_path o =
      if is_seen span.text section_path o.seen_texts
      then record o { duplicate_count = o.duplicate_count + 1 }
      else record o {
        chunks =
            o.chunks
            ++ build_chunk (length o.chunks) source_doc_id split_ver span section_path ∷ [];
        seen_texts = o.seen_texts ++ (span.text, section_path) ∷ [];
      }

  -- The inner loop, over `final_spans`.
  pub append_spans : List SectionPathState → Text → Text → List Span → Output → Output
  unfolding append_chunk
  append_spans states source_doc_id split_ver [] o = o
  append_spans states source_doc_id split_ver (span ∷ spans) o =
      append_spans states source_doc_id split_ver spans
        (append_chunk source_doc_id split_ver span (path_for states span.start) o)

  -- `final_spans` of one packed span; a span that is not kept has none.
  pub final_spans : ChunkingConfig → Text → Span → List Span
  final_spans config markdown span = elim (normalize_span count_tokens markdown span) [
    | none ↦ []
    | some normalized ↦
        enforce_max_tokens count_tokens config.chunk_size_tokens config.max_chunk_tokens
          config.separators markdown normalized
  ]

  -- `packed_spans`
  pub packed_spans : ChunkingConfig → Text → List Span
  packed_spans config markdown =
      flat_map
        (λ seed. pack_spans count_tokens config.chunk_size_tokens config.max_chunk_tokens (
          split_recursive count_tokens config.chunk_size_tokens config.max_chunk_tokens
            config.separators seed))
        (split_on_section_boundaries markdown (build_section_path_states markdown))

  -- The outer loop, over `packed_spans`.
  pub chunk_spans : ChunkingConfig → Text → Text → Text → List Span → Output → Output
  unfolding append_spans final_spans
  chunk_spans config markdown source_doc_id split_ver [] o = o
  chunk_spans config markdown source_doc_id split_ver (span ∷ spans) o =
      chunk_spans config markdown source_doc_id split_ver spans (
        append_spans (build_section_path_states markdown) source_doc_id split_ver
          (final_spans config markdown span) o)

  -- `source_doc_id or derive_source_doc_id("inline_markdown")`
  pub source_id : Option Text → Text
  unfolding derive_source_doc_id
  source_id none = derive_source_doc_id (codes "inline_markdown")
  source_id (some id) = if is_empty id then derive_source_doc_id (codes "inline_markdown") else id

  -- The chunks and the number of duplicates, or the error of a bad configuration.
  unfoldable pub chunk_markdown :
      Text → Option ℕ → Option Text → Option ChunkingConfig → ConfigError ⊎ Output
  unfolding chunk_spans packed_spans source_id splitter_version
  chunk_markdown markdown target_tokens source_doc_id config =
      elim (build_config config target_tokens) [
        | err e ↦ inl e
        | ok active ↦
            if is_empty (strip markdown)
            then inr nothing_yet
            else inr (
                chunk_spans active markdown (source_id source_doc_id) (splitter_version active)
                  (packed_spans active markdown) nothing_yet)
      ]
