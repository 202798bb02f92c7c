-- ===== src/Chunk/Normalize.antt =====
-- `_normalize_text_with_offsets`, `_normalize_span` and `_enforce_max_tokens` of
-- core/src/docrunr/chunk.py.
use mathlib.Core.List.{flat_map}
use docrunr.Base.{
  ℕ, ◌+◌, ◌-◌, ◌≤◌, Bool, true, ◌&&◌, ◌||◌, Option, none, some, List, [], ◌∷◌, arith, Text, length,
  slice, ltb, leb, if◌then◌else◌, is_empty, is_space, lstrip, rstrip, Bool-cases, inl, inr,
  Option-cases, All, All-flat_map, leb→le,
}
use docrunr.Normalize.{normalize_chunk_text}
use docrunr.Chunk.Span.{Span, Within, Within-mono}
use docrunr.Chunk.Windows.{split_force_token_windows, split_force_token_windows-Within, FitsAlone}
use docrunr.Chunk.Recursive.{split_recursive}
use docrunr.Chunk.Pack.{pack_spans}

-- `text.isspace()`, of a text that is not empty
all_space : Text → Bool
all_space [] = true
all_space (c ∷ s) = is_space c && all_space s

-- The text, and its offsets with the white space at both ends left out.
unfoldable pub normalize_text_with_offsets : Text → ℕ → ℕ → Span
normalize_text_with_offsets source start end_offset =
    let raw = slice source start end_offset in
    let leading = length raw - length (lstrip raw) in
    let trailing = length raw - length (rstrip raw) in
    let adj_start = start + leading in
    let adj_end = if ltb 0 trailing then end_offset - trailing else end_offset in
    if is_empty raw
    then record { text = []; start = start; end = end_offset }
    else if ltb adj_end adj_start
    then record {
      text = normalize_chunk_text (slice source start end_offset);
      start = start;
      end = end_offset;
    }
    else record {
      text = normalize_chunk_text (slice source adj_start adj_end);
      start = adj_start;
      end = adj_end;
    }

module _ (count_tokens : Text → ℕ) where
  unfoldable pub normalize_span : Text → Span → Option Span
  unfolding normalize_text_with_offsets all_space
  normalize_span source span =
      let normalized = normalize_text_with_offsets source span.start span.end in
      if is_empty normalized.text || all_space normalized.text
      then none
      else if leb (count_tokens normalized.text) 0
      then none
      else some normalized

  -- The limits and separators of `ChunkingConfig`, as the passes read them.
  module _ (target_tokens max_chunk_tokens : ℕ) (separators : List Text) where
    -- The body of the loop over `repacked`.
    pub enforce_candidate : Text → Span → List Span
    enforce_candidate source candidate = elim (normalize_span source candidate) [
      | none ↦ []
      | some normalized ↦
          if ltb max_chunk_tokens (count_tokens normalized.text)
          then split_force_token_windows count_tokens normalized target_tokens
          else normalized ∷ []
    ]

    unfoldable pub enforce_max_tokens : Text → Span → List Span
    unfolding enforce_candidate
    enforce_max_tokens source span =
        if leb (count_tokens span.text) max_chunk_tokens
        then span ∷ []
        else flat_map (enforce_candidate source) (
            pack_spans count_tokens target_tokens max_chunk_tokens
              (split_recursive count_tokens target_tokens max_chunk_tokens separators span))

module _ (count_tokens : Text → ℕ) (target_tokens max_chunk_tokens : ℕ) (separators : List Text)
    (alone : FitsAlone count_tokens target_tokens)
    (ordered : target_tokens ≤ max_chunk_tokens) where
  enforce_candidate-Within :
      (source : Text) (span : Span)
      → All
          (Within count_tokens max_chunk_tokens)
          (enforce_candidate count_tokens target_tokens max_chunk_tokens separators source span)
  unfolding enforce_candidate
  enforce_candidate-Within source span =
      elim (Option-cases (normalize_span count_tokens source span)) [
        | inl dropped ↦ rw (dropped, enforce_candidate) tt
        | inr (s, kept) ↦ elim (Bool-cases (ltb max_chunk_tokens (count_tokens s.text))) [
          | inl large ↦
              rw (kept, enforce_candidate, large)
                (Within-mono count_tokens target_tokens max_chunk_tokens _ ordered
                  (split_force_token_windows-Within count_tokens target_tokens alone s))
          | inr fit ↦ rw (kept, enforce_candidate, fit) (ground arith, tt)
        ]
      ]

  -- What is enforced has at most `max_chunk_tokens` tokens.
  pub enforce_max_tokens-Within :
      (source : Text) (span : Span)
      → All
          (Within count_tokens max_chunk_tokens)
          (enforce_max_tokens count_tokens target_tokens max_chunk_tokens separators source span)
  unfolding enforce_max_tokens
  enforce_max_tokens-Within source span =
      elim (Bool-cases (leb (count_tokens span.text) max_chunk_tokens)) [
        | inl fit ↦ rw fit (leb→le _ _ fit, tt)
        | inr large ↦ rw large (
            All-flat_map (Within count_tokens max_chunk_tokens) _ _
              (enforce_candidate-Within source))
      ]
