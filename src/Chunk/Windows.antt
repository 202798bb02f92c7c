-- ===== src/Chunk/Windows.antt =====
-- `_best_token_window_end` and `_split_force_token_windows` of core/src/docrunr/chunk.py: a text
-- that no separator cuts is cut into windows of at most `target_tokens` tokens. The tokenizer is
-- tiktoken's, so `count_tokens` is a parameter.
use docrunr.Base.{
  ℕ, zero, suc, ◌+◌, ◌-◌, ◌/◌, ◌≤◌, ◌<◌, ◌≡◌, ◌⊎◌, refl, inl, inr, Bool, true, ◌&&◌, List, [], ◌∷◌,
  arith, Text, length, drop, slice, length-slice, drop_all, ltb, leb, if◌then◌else◌, Bool-cases,
  leb→le, All,
}
use docrunr.Chunk.Span.{Span, Covers, Covers-nil, Covers-slice, Within}

module _ (count_tokens : Text → ℕ) where
  -- `0 < tok <= target_tokens`
  abbrev pub fits : Text → ℕ → Bool
  fits t target_tokens = ltb 0 (count_tokens t) && leb (count_tokens t) target_tokens

  -- The binary search on `low`, `high` and `best`. `low` is at least 1, so `mid - 1` is exact.
  search_end : ℕ → Text → ℕ → ℕ → ℕ → ℕ → ℕ → ℕ
  search_end zero text start_local target_tokens low high best = best
  search_end (suc fuel) text start_local target_tokens low high best =
      let mid = (low + high) / 2 in
      let longer = search_end fuel text start_local target_tokens (mid + 1) high mid in
      let shorter = search_end fuel text start_local target_tokens low (mid - 1) best in
      if leb low high
      then (if fits (slice text start_local mid) target_tokens then longer else shorter)
      else best

  -- The range shrinks in each round, so one round more than `len(text)` is enough.
  unfoldable pub best_token_window_end : Text → ℕ → ℕ → ℕ
  unfolding search_end
  best_token_window_end text start_local target_tokens =
      search_end (suc (length text)) text start_local target_tokens (start_local + 1) (length text)
        start_local

  -- `if best_end <= start_local: best_end = start_local + 1`
  abbrev pub window_end : Text → ℕ → ℕ → ℕ
  window_end text start_local target_tokens =
      let best_end = best_token_window_end text start_local target_tokens in
      if leb best_end start_local then start_local + 1 else best_end

  -- The loop on `start_local`, which each round moves on.
  windows_from : ℕ → Text → ℕ → ℕ → ℕ → List Span
  windows_from zero text pos target_tokens start_local = []
  windows_from (suc fuel) text pos target_tokens start_local =
      let end_local = window_end text start_local target_tokens in
      let rest = windows_from fuel text pos target_tokens end_local in
      if ltb start_local (length text)
      then (record {
        text = slice text start_local end_local;
        start = pos + start_local;
        end = pos + end_local;
      }
          ∷ rest)
      else []

  unfoldable pub split_force_token_windows : Span → ℕ → List Span
  unfolding windows_from best_token_window_end
  split_force_token_windows span target_tokens =
      windows_from (length span.text) span.text span.start target_tokens 0

module _ (count_tokens : Text → ℕ) (text : Text) (start_local target_tokens : ℕ) where
  -- What the search may answer: nothing at all, or an end behind the start whose window fits.
  abbrev pub IsWindowEnd : ℕ → Type 0
  IsWindowEnd e =
      (e ≡ start_local)
      ⊎ ((start_local < e)
          × (e ≤ length text)
          × (fits count_tokens (slice text start_local e) target_tokens ≡ true))

  search_end-IsWindowEnd :
      (fuel low high best : ℕ)
      → start_local < low
      → high ≤ length text
      → IsWindowEnd best
      → IsWindowEnd (search_end count_tokens fuel text start_local target_tokens low high best)
  unfolding search_end
  search_end-IsWindowEnd zero low high best l h b = b
  search_end-IsWindowEnd (suc fuel) low high best l h b =
      let mid : ℕ = (low + high) / 2 in
      elim (Bool-cases (leb low high)) [
        | inr over ↦ rw over b
        | inl within ↦
            let below : low ≤ high = leb→le low high within in
            elim (Bool-cases (fits count_tokens (slice text start_local mid) target_tokens)) [
              | inl good ↦
                  rw (within, good)
                    (search_end-IsWindowEnd fuel (mid + 1) high mid (omega arith) h
                      (inr (omega arith, omega arith, good)))
              | inr bad ↦
                  rw (within, bad)
                    (search_end-IsWindowEnd fuel low (mid - 1) best l (omega arith) b)
            ]
      ]

  -- The binary search answers its start, or an end behind the start and inside the text whose
  -- window has at most `target_tokens` tokens, whatever the tokenizer counts.
  pub best_token_window_end-IsWindowEnd :
      IsWindowEnd (best_token_window_end count_tokens text start_local target_tokens)
  unfolding best_token_window_end
  best_token_window_end-IsWindowEnd =
      search_end-IsWindowEnd (suc (length text)) (start_local + 1) (length text) start_local
        (omega arith) (omega arith) (inl refl)

module _ (count_tokens : Text → ℕ) (text : Text) (start_local target_tokens : ℕ) where
  -- A window is never empty and never runs past the text.
  pub window_end_bounds :
      start_local < length text
      → (start_local < window_end count_tokens text start_local target_tokens)
        × (window_end count_tokens text start_local target_tokens ≤ length text)
  window_end_bounds h =
      ground (arith, best_token_window_end-IsWindowEnd count_tokens text start_local target_tokens)

module _ (count_tokens : Text → ℕ) (text : Text) (pos target_tokens : ℕ) where
  windows_from-Covers :
      (fuel start_local : ℕ)
      → start_local ≤ length text
      → length text ≤ start_local + fuel
      → Covers
          (drop start_local text)
          (pos + start_local)
          (windows_from count_tokens fuel text pos target_tokens start_local)
  unfolding windows_from
  windows_from-Covers zero start_local le enough =
      rw (drop_all start_local text (omega arith)) (Covers-nil (pos + start_local))
  windows_from-Covers (suc fuel) start_local le enough =
      elim (Bool-cases (ltb start_local (length text))) [
        | inr over ↦
            rw over (rw (drop_all start_local text (ground arith)) (Covers-nil (pos + start_local)))
        | inl within ↦
            let e : ℕ = window_end count_tokens text start_local target_tokens in
            let bounds =
              window_end_bounds count_tokens text start_local target_tokens (ground arith) in
            rw within (
              Covers-slice start_local e text pos _ (omega (arith, bounds.0)) bounds.1
                (windows_from-Covers fuel e bounds.1 (omega (arith, bounds.0))))
      ]

pub split_force_token_windows-Covers :
    (count_tokens : Text → ℕ) (span : Span) (target_tokens : ℕ)
    → Covers span.text span.start (split_force_token_windows count_tokens span target_tokens)
unfolding split_force_token_windows
split_force_token_windows-Covers count_tokens span target_tokens =
    let e : span.start + 0 ≡ span.start = omega arith in
    rw e at (
      windows_from-Covers count_tokens span.text span.start target_tokens (length span.text) 0
        (omega arith) (omega arith))

-- No single code point has more than `target_tokens` tokens: a byte-pair encoding gives a text at
-- most one token for each of its UTF-8 bytes, which are four at most.
abbrev pub FitsAlone : (Text → ℕ) → ℕ → Type 0
FitsAlone count_tokens target_tokens =
    (text : Text) → length text ≡ 1 → count_tokens text ≤ target_tokens

module _ (count_tokens : Text → ℕ) (target_tokens : ℕ)
    (alone : FitsAlone count_tokens target_tokens) where
  window-small :
      (text : Text) (start_local : ℕ)
      → start_local < length text
      → count_tokens
          (slice text start_local (window_end count_tokens text start_local target_tokens))
        ≤ target_tokens
  window-small text start_local h = ground (
    arith,
    best_token_window_end-IsWindowEnd count_tokens text start_local target_tokens,
    alone (slice text start_local (start_local + 1)),
    length-slice text start_local (start_local + 1),
  )

  windows_from-Within :
      (text : Text) (pos fuel start_local : ℕ)
      → All
          (Within count_tokens target_tokens)
          (windows_from count_tokens fuel text pos target_tokens start_local)
  unfolding windows_from
  windows_from-Within text pos zero start_local = tt
  windows_from-Within text pos (suc fuel) start_local =
      elim (Bool-cases (ltb start_local (length text))) [
        | inr over ↦ rw over tt
        | inl within ↦ rw within (
          window-small text start_local (ground arith),
          windows_from-Within text pos fuel
              (window_end count_tokens text start_local target_tokens),
        )
      ]

  -- Every window has at most `target_tokens` tokens.
  pub split_force_token_windows-Within :
      (span : Span)
      → All
          (Within count_tokens target_tokens)
          (split_force_token_windows count_tokens span target_tokens)
  unfolding split_force_token_windows
  split_force_token_windows-Within span =
      windows_from-Within span.text span.start (length span.text) 0
