-- ===== src/Chunk/Span.antt =====
-- `_Span` of core/src/docrunr/chunk.py, and what it is for a list of spans to tile a text.
use mathlib.Core.List.{flat_map}
use docrunr.Base.{
  ℕ, ◌+◌, ◌≤◌, ◌≡◌, refl, List, [], ◌∷◌, ◌++◌, append-nil, append_assoc, arith, Text, length,
  length-append, take, drop, take-append-drop, length-take, slice, slice-append-drop, length-slice,
  All,
}

pub record Span : Type 0 where
  pub text : Text
  pub start : ℕ
  pub end : ℕ

-- `"".join(part.text for part in spans)`
unfoldable pub joined : List Span → Text
joined [] = []
joined (s ∷ ss) = s.text ++ joined ss

-- The spans follow one another from `pos` on, and each is as long as its text.
abbrev pub Placed : ℕ → List Span → Type 0
Placed pos [] = Unit
Placed pos (s ∷ ss) = (s.start ≡ pos) × (s.end ≡ pos + length s.text) × Placed s.end ss

-- The spans cut `text`, which stands at `pos` of the source, with no gap and no overlap.
pub record Covers (text : Text) (pos : ℕ) (spans : List Span) : Type 0 where
  pub same_text : joined spans ≡ text
  pub placed : Placed pos spans

pub joined-append : (xs ys : List Span) → joined (xs ++ ys) ≡ joined xs ++ joined ys
unfolding joined
joined-append [] ys = refl
joined-append (x ∷ xs) ys = rw (joined-append xs ys, append_assoc)

pub Placed-append :
    (pos : ℕ) (xs ys : List Span)
    → Placed pos xs
    → Placed (pos + length (joined xs)) ys
    → Placed pos (xs ++ ys)
unfolding joined
Placed-append pos [] ys h k = let e : pos + 0 ≡ pos = omega arith in rw e at k
Placed-append pos (x ∷ xs) ys h k =
    let e : pos + length (x.text ++ joined xs) ≡ x.end + length (joined xs) =
      omega (arith, length-append x.text (joined xs)) in
    (h.0, h.1, Placed-append x.end xs ys h.2 (rw e at k))

pub Covers-nil : (pos : ℕ) → Covers [] pos []
unfolding joined
Covers-nil pos = record { same_text = refl; placed = tt }

pub Covers-append :
    {t u : Text} {pos : ℕ} (xs ys : List Span)
    → Covers t pos xs
    → Covers u (pos + length t) ys
    → Covers (t ++ u) pos (xs ++ ys)
Covers-append {pos = pos} xs ys h k = record {
  same_text = rw joined-append (rw (h.same_text, k.same_text));
  placed = Placed-append pos xs ys h.placed (rw h.same_text k.placed);
}

-- One span whose offsets fit its text.
pub Covers-one : (s : Span) → s.end ≡ s.start + length s.text → Covers s.text s.start (s ∷ [])
unfolding joined
Covers-one s h = record { same_text = append-nil s.text; placed = (refl, h, tt) }

-- Spans with an empty text leave no trace.
abbrev pub IsSized : Span → Type 0
IsSized s = s.end ≡ s.start + length s.text

-- What is cut off at the front, and the spans of the rest, together tile the whole.
pub Covers-cut :
    (n : ℕ) (t : Text) (pos : ℕ) (spans : List Span)
    → n ≤ length t
    → Covers (drop n t) (pos + n) spans
    → Covers t pos (record { text = take n t; start = pos; end = pos + n } ∷ spans)
unfolding joined
Covers-cut n t pos spans fits h = record {
  same_text = rw h.same_text (take-append-drop n t);
  placed = (refl, omega (arith, length-take n t), h.placed);
}

-- The same for a cut at `b` of what stands behind `a`.
pub Covers-slice :
    (a b : ℕ) (t : Text) (pos : ℕ) (spans : List Span)
    → a ≤ b
    → b ≤ length t
    → Covers (drop b t) (pos + b) spans
    → Covers
        (drop a t)
        (pos + a)
        (record { text = slice t a b; start = pos + a; end = pos + b } ∷ spans)
unfolding joined
Covers-slice a b t pos spans le fits h = record {
  same_text = rw h.same_text (slice-append-drop t a b le);
  placed = (refl, omega (arith, length-slice t a b fits), h.placed);
}

-- The text of a span has at most `limit` tokens.
abbrev pub Within : (Text → ℕ) → ℕ → Span → Type 0
Within count_tokens limit s = count_tokens s.text ≤ limit

module _ (f : Span → List Span)
    (f-Covers : (s : Span) → IsSized s → Covers s.text s.start (f s)) where
  flat_map-joined-Covers :
      (pos : ℕ) (ss : List Span) → Placed pos ss → Covers (joined ss) pos (flat_map f ss)
  unfolding joined flat_map
  flat_map-joined-Covers pos [] h = Covers-nil pos
  flat_map-joined-Covers pos (s ∷ ss) h =
      let head : Covers s.text pos (f s) = rw (← h.0) (f-Covers s (omega arith)) in
      Covers-append (f s) (flat_map f ss) head (rw (← h.1) (flat_map-joined-Covers s.end ss h.2))

  -- A tiling is refined by tiling each of its spans.
  pub flat_map-Covers :
      {t : Text} {pos : ℕ} (ss : List Span) → Covers t pos ss → Covers t pos (flat_map f ss)
  flat_map-Covers {pos = pos} ss h = rw (← h.same_text) (flat_map-joined-Covers pos ss h.placed)

pub Within-mono :
    (count_tokens : Text → ℕ) (a b : ℕ) (ss : List Span)
    → a ≤ b
    → All (Within count_tokens a) ss
    → All (Within count_tokens b) ss
Within-mono count_tokens a b [] le h = tt
Within-mono count_tokens a b (s ∷ ss) le h =
    (omega (arith, h.0), Within-mono count_tokens a b ss le h.1)
