-- ===== src/Chunk/Recursive.antt =====
-- `_split_recursive` of core/src/docrunr/chunk.py.
use mathlib.Core.List.{flat_map}
use docrunr.Base.{
  ℕ, ◌≤◌, ◌≡◌, inl, inr, true, List, [], ◌∷◌, Text, length, is_empty, leb, if◌then◌else◌,
  Bool-cases, leb→le, All, All-flat_map, is_empty→nil,
}
use docrunr.Chunk.Span.{
  Span, Covers, Covers-nil, Covers-one, IsSized, Within, Within-mono, flat_map-Covers,
}
use docrunr.Chunk.Separator.{split_on_separator, split_on_separator-Covers}
use docrunr.Chunk.Windows.{
  split_force_token_windows, split_force_token_windows-Covers, split_force_token_windows-Within,
  FitsAlone,
}

module _ (count_tokens : Text → ℕ) (target_tokens max_chunk_tokens : ℕ) where
  -- The body of the loop over `pieces`; `split` is the call with the next separator.
  abbrev split_piece : (Span → List Span) → Span → List Span
  split_piece split piece =
      if is_empty piece.text
      then []
      else if leb (count_tokens piece.text) max_chunk_tokens
      then piece ∷ []
      else split piece

  -- The list holds `separators[separator_index:]`.
  unfoldable pub split_recursive : List Text → Span → List Span
  split_recursive [] span =
      if is_empty span.text
      then []
      else if leb (count_tokens span.text) max_chunk_tokens
      then span ∷ []
      else split_force_token_windows count_tokens span target_tokens
  split_recursive (separator ∷ separators) span =
      let pieces = split_on_separator span separator in
      let next = split_recursive separators span in
      let split = flat_map (split_piece (split_recursive separators)) pieces in
      if is_empty span.text
      then []
      else if leb (count_tokens span.text) max_chunk_tokens
      then span ∷ []
      else if is_empty separator
      then split_force_token_windows count_tokens span target_tokens
      else if leb (length pieces) 1
      then next
      else split

  empty-Covers : (span : Span) → is_empty span.text ≡ true → Covers span.text span.start []
  empty-Covers span h = rw (is_empty→nil span.text h) (Covers-nil span.start)

  split_piece-Covers :
      (split : Span → List Span)
      → ((s : Span) → IsSized s → Covers s.text s.start (split s))
      → (s : Span) → IsSized s
      → Covers s.text s.start (split_piece split s)
  split_piece-Covers split ih s sized = elim (Bool-cases (is_empty s.text)) [
    | inl e ↦ rw e (empty-Covers s e)
    | inr e ↦ elim (Bool-cases (leb (count_tokens s.text) max_chunk_tokens)) [
      | inl small ↦ rw (e, small) (Covers-one s sized)
      | inr large ↦ rw (e, large) (ih s sized)
    ]
  ]

  -- The pieces tile the span: no text is lost, doubled or moved.
  pub split_recursive-Covers :
      (separators : List Text) (span : Span)
      → IsSized span
      → Covers span.text span.start (split_recursive separators span)
  unfolding split_recursive
  split_recursive-Covers [] span sized =
      split_piece-Covers (λ s. split_force_token_windows count_tokens s target_tokens)
        (λ s _. split_force_token_windows-Covers count_tokens s target_tokens) span sized
  split_recursive-Covers ([] ∷ separators) span sized =
      split_piece-Covers (λ s. split_force_token_windows count_tokens s target_tokens)
        (λ s _. split_force_token_windows-Covers count_tokens s target_tokens) span sized
  split_recursive-Covers ((c ∷ separator) ∷ separators) span sized =
      split_piece-Covers
        (λ s.
          if leb (length (split_on_separator s (c ∷ separator))) 1
          then split_recursive separators s
          else flat_map (split_piece (split_recursive separators))
              (split_on_separator s (c ∷ separator)))
        (λ s size. elim (Bool-cases (leb (length (split_on_separator s (c ∷ separator))) 1)) [
          | inl whole ↦ rw whole (split_recursive-Covers separators s size)
          | inr cut ↦ rw cut (
              flat_map-Covers (split_piece (split_recursive separators))
                (split_piece-Covers (split_recursive separators)
                  (split_recursive-Covers separators))
                (split_on_separator s (c ∷ separator))
                (split_on_separator-Covers s (c ∷ separator) (λ e. cc)))
        ])
        span sized

module _ (count_tokens : Text → ℕ) (target_tokens max_chunk_tokens : ℕ)
    (alone : FitsAlone count_tokens target_tokens)
    (ordered : target_tokens ≤ max_chunk_tokens) where
  abbrev IsSmall : List Span → Type 0
  IsSmall = All (Within count_tokens max_chunk_tokens)

  windows-IsSmall : (s : Span) → IsSmall (split_force_token_windows count_tokens s target_tokens)
  windows-IsSmall s =
      Within-mono count_tokens target_tokens max_chunk_tokens _ ordered
        (split_force_token_windows-Within count_tokens target_tokens alone s)

  split_piece-IsSmall :
      (split : Span → List Span)
      → ((s : Span) → IsSmall (split s))
      → (s : Span) → IsSmall (split_piece count_tokens target_tokens max_chunk_tokens split s)
  split_piece-IsSmall split ih s = elim (Bool-cases (is_empty s.text)) [
    | inl e ↦ rw e tt
    | inr e ↦ elim (Bool-cases (leb (count_tokens s.text) max_chunk_tokens)) [
      | inl fit ↦ rw (e, fit) (leb→le _ _ fit, tt)
      | inr large ↦ rw (e, large) (ih s)
    ]
  ]

  -- Every piece has at most `max_chunk_tokens` tokens.
  pub split_recursive-Within :
      (separators : List Text) (span : Span)
      → IsSmall (split_recursive count_tokens target_tokens max_chunk_tokens separators span)
  unfolding split_recursive
  split_recursive-Within [] span = split_piece-IsSmall _ windows-IsSmall span
  split_recursive-Within ([] ∷ separators) span = split_piece-IsSmall _ windows-IsSmall span
  split_recursive-Within ((c ∷ separator) ∷ separators) span =
      split_piece-IsSmall
        (λ s.
          if leb (length (split_on_separator s (c ∷ separator))) 1
          then split_recursive count_tokens target_tokens max_chunk_tokens separators s
          else flat_map
              (split_piece count_tokens target_tokens max_chunk_tokens
                (split_recursive count_tokens target_tokens max_chunk_tokens separators))
              (split_on_separator s (c ∷ separator)))
        (λ s. elim (Bool-cases (leb (length (split_on_separator s (c ∷ separator))) 1)) [
          | inl whole ↦ rw whole (split_recursive-Within separators s)
          | inr cut ↦ rw cut (
              All-flat_map (Within count_tokens max_chunk_tokens)
                (split_piece count_tokens target_tokens max_chunk_tokens
                  (split_recursive count_tokens target_tokens max_chunk_tokens separators))
                (split_on_separator s (c ∷ separator))
                (split_piece-IsSmall
                  (split_recursive count_tokens target_tokens max_chunk_tokens separators)
                  (split_recursive-Within separators)))
        ])
        span
