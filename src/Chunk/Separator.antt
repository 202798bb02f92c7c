-- ===== src/Chunk/Separator.antt =====
-- `_split_on_separator` of core/src/docrunr/chunk.py: a text is cut behind each occurrence of a
-- separator.
use docrunr.Base.{
  ℕ, zero, suc, ◌+◌, ◌≤◌, ◌≢◌, refl, inl, inr, none, some, List, [], ◌∷◌, arith, Text, length, take,
  drop, length-drop, find?, find?-le, Option-cases,
}
use docrunr.Chunk.Span.{Span, Covers, Covers-nil, Covers-cut, Covers-one}

-- The loop on `cursor`: `rest` is `text[cursor:]` and `pos` is `span.start + cursor`. Every round
-- moves the cursor on by at least one code point, so that `len(text)` rounds are enough.
split_from : ℕ → Text → Text → ℕ → List Span
split_from zero separator rest pos = []
split_from (suc fuel) separator [] pos = []
split_from (suc fuel) separator (c ∷ rest) pos = elim (find? (c ∷ rest) separator) [
  | none ↦ record { text = c ∷ rest; start = pos; end = pos + length (c ∷ rest) } ∷ []
  | some at ↦
      record {
        text = take (at + length separator) (c ∷ rest);
        start = pos;
        end = pos + (at + length separator);
      }
      ∷ split_from fuel separator (drop (at + length separator) (c ∷ rest))
          (pos + (at + length separator))
]

unfoldable pub split_on_separator : Span → Text → List Span
unfolding split_from
split_on_separator span separator = split_from (length span.text) separator span.text span.start

split_from-Covers :
    (fuel : ℕ) (separator rest : Text) (pos : ℕ)
    → separator ≢ []
    → length rest ≤ fuel
    → Covers rest pos (split_from fuel separator rest pos)
unfolding split_from
split_from-Covers zero separator [] pos ne h = Covers-nil pos
split_from-Covers zero separator (c ∷ rest) pos ne h = elim h [ ]
split_from-Covers (suc fuel) separator [] pos ne h = Covers-nil pos
split_from-Covers (suc fuel) [] (c ∷ rest) pos ne h = absurd (ne refl)
split_from-Covers (suc fuel) (d ∷ separator) (c ∷ rest) pos ne h =
    elim (Option-cases (find? (c ∷ rest) (d ∷ separator))) [
      | inl missing ↦ rw (missing, split_from) (Covers-one _ refl)
      | inr (at, found) ↦
          let n : ℕ = at + suc (length separator) in
          let shorter : length (drop n (c ∷ rest)) ≤ fuel =
            omega (arith, length-drop n (c ∷ rest)) in
          rw (found, split_from)
            (Covers-cut n (c ∷ rest) pos _ (find?-le (c ∷ rest) (d ∷ separator) at found)
              (split_from-Covers fuel (d ∷ separator) (drop n (c ∷ rest)) (pos + n) ne shorter))
    ]

pub split_on_separator-Covers :
    (span : Span) (separator : Text)
    → separator ≢ []
    → Covers span.text span.start (split_on_separator span separator)
unfolding split_on_separator
split_on_separator-Covers span separator ne =
    split_from-Covers (length span.text) separator span.text span.start ne (omega arith)
