-- ===== src/Chunk/Pack.antt =====
-- `_pack_spans` of core/src/docrunr/chunk.py: small spans that follow one another are joined.
use docrunr.Base.{
  ℕ, ◌+◌, ◌≡◌, inl, inr, Bool, ◌&&◌, ◌||◌, List, [], ◌∷◌, ◌++◌, arith, Text, append-nil,
  append_assoc, length, length-append, is_empty, is_empty→nil, ltb, leb, if◌then◌else◌, Bool-cases,
  refl, ◌∙◌,
}
use docrunr.Chunk.Span.{Span, joined, joined-append, Placed, Placed-append, Covers, IsSized}
use docrunr.Chunk.Windows.{split_force_token_windows, split_force_token_windows-Covers}

abbrev pub min_recommended_chunk_tokens : ℕ
min_recommended_chunk_tokens = 200

-- The variables of the loop.
pub record Packing : Type 0 where
  pub out : List Span
  pub current_parts : List Span
  pub current_tokens : ℕ

-- `current_parts[-1].end`, of parts that follow `span`
abbrev pub last_end : Span → List Span → ℕ
last_end span [] = span.end
last_end span (s ∷ ss) = last_end s ss

abbrev flush_parts : List Span → List Span
flush_parts [] = []
flush_parts (s ∷ ss) = record { text = joined (s ∷ ss); start = s.start; end = last_end s ss } ∷ []

pub flush : Packing → Packing
flush p = record {
  out = p.out ++ flush_parts p.current_parts;
  current_parts = [];
  current_tokens = 0;
}

module _ (count_tokens : Text → ℕ) (target_tokens max_chunk_tokens : ℕ) where
  abbrev should_add : ℕ → ℕ → Bool
  should_add current_tokens next_tokens =
      leb next_tokens target_tokens
      || (ltb current_tokens min_recommended_chunk_tokens && leb next_tokens max_chunk_tokens)

  -- The body of the loop over `spans`.
  pub pack_span : Packing → Span → Packing
  unfolding flush
  pack_span p span =
      let tok = count_tokens span.text in
      let flushed = flush p in
      if is_empty span.text
      then p
      else if ltb max_chunk_tokens tok
      then record flushed {
        out = flushed.out ++ split_force_token_windows count_tokens span target_tokens;
      }
      else if is_empty p.current_parts
      then record p { current_parts = span ∷ []; current_tokens = tok }
      else if should_add p.current_tokens (p.current_tokens + tok)
      then record p {
        current_parts = p.current_parts ++ span ∷ [];
        current_tokens = p.current_tokens + tok;
      }
      else record flushed { current_parts = span ∷ []; current_tokens = tok }

  pack_loop : Packing → List Span → Packing
  pack_loop p [] = p
  pack_loop p (span ∷ spans) = pack_loop (pack_span p span) spans

  unfoldable pub pack_spans : List Span → List Span
  unfolding pack_loop pack_span flush
  pack_spans spans =
      (flush (pack_loop (record { out = []; current_parts = []; current_tokens = 0 }) spans)).out

-- What has been read, `text` from `pos` on, is tiled by `out` and then the parts.
record Packed (text : Text) (pos : ℕ) (p : Packing) : Type 0 where
  same_text : joined p.out ++ joined p.current_parts ≡ text
  out_placed : Placed pos p.out
  parts_placed : Placed (pos + length (joined p.out)) p.current_parts

last_end-lem :
    (pos : ℕ) (s : Span) (ss : List Span)
    → Placed pos (s ∷ ss)
    → last_end s ss ≡ pos + length (joined (s ∷ ss))
unfolding joined
last_end-lem pos s [] h = omega (arith, h.1, length-append s.text [])
last_end-lem pos s (t ∷ ss) h =
    omega (arith, last_end-lem s.end t ss h.2, length-append s.text (joined (t ∷ ss)))

flush_parts-joined : (ss : List Span) → joined (flush_parts ss) ≡ joined ss
unfolding joined
flush_parts-joined [] = refl
flush_parts-joined (s ∷ ss) = append-nil (s.text ++ joined ss)

flush_parts-Placed : (pos : ℕ) (ss : List Span) → Placed pos ss → Placed pos (flush_parts ss)
flush_parts-Placed pos [] h = tt
flush_parts-Placed pos (s ∷ ss) h = (h.0, last_end-lem pos s ss h, tt)

flush-Packed : {t : Text} {pos : ℕ} (p : Packing) → Packed t pos p → Packed t pos (flush p)
unfolding flush joined
flush-Packed {pos = pos} p h = record {
  same_text = rw (append-nil, joined-append, flush_parts-joined) h.same_text;
  out_placed =
      Placed-append pos p.out (flush_parts p.current_parts) h.out_placed
        (flush_parts-Placed _ p.current_parts h.parts_placed);
  parts_placed = tt;
}

abbrev Fits : Text → ℕ → Span → Type 0
Fits t pos s = (s.start ≡ pos + length t) × IsSized s

out_length :
    {t : Text} {pos : ℕ} (p : Packing)
    → Packed t pos p
    → length (joined p.out) + length (joined p.current_parts) ≡ length t
out_length {t} p h = rw (← length-append (joined p.out) (joined p.current_parts), h.same_text)

add_part-Packed :
    {t : Text} {pos : ℕ} (p : Packing) (s : Span) (n : ℕ)
    → Packed t pos p
    → Fits t pos s
    → Packed
        (t ++ s.text)
        pos
        (record p { current_parts = p.current_parts ++ s ∷ []; current_tokens = n })
unfolding joined
add_part-Packed {t} {pos} p s n h f = record {
  same_text = rw (joined-append, append-nil, ← append_assoc) (rw h.same_text);
  out_placed = h.out_placed;
  parts_placed =
      Placed-append _ p.current_parts (s ∷ []) h.parts_placed
        (omega (arith, f.0, out_length p h), omega (arith, f.0, f.1, out_length p h), tt);
}

add_out-Packed :
    {t : Text} {pos : ℕ} (p : Packing) (s : Span) (ss : List Span)
    → Packed t pos p
    → p.current_parts ≡ []
    → Fits t pos s
    → Covers s.text s.start ss
    → Packed (t ++ s.text) pos (record p { out = p.out ++ ss })
unfolding joined
add_out-Packed {t} {pos} p s ss h e f c =
    let none_left : joined p.out ≡ t = rw (e, joined, append-nil) at h.same_text in
    record {
      same_text = rw (e, joined-append, c.same_text, none_left) (append-nil (t ++ s.text));
      out_placed = Placed-append pos p.out ss h.out_placed (rw (none_left, ← f.0) c.placed);
      parts_placed = rw e tt;
    }

module _ (count_tokens : Text → ℕ) (target_tokens max_chunk_tokens : ℕ) where
  pack_span-Packed :
      {t : Text} {pos : ℕ} (p : Packing) (s : Span)
      → Packed t pos p
      → Fits t pos s
      → Packed (t ++ s.text) pos (pack_span count_tokens target_tokens max_chunk_tokens p s)
  unfolding pack_span
  pack_span-Packed {t} {pos} p s h f = elim (Bool-cases (is_empty s.text)) [
    | inl e ↦ rw e (rw (is_empty→nil s.text e, append-nil) h)
    | inr e ↦ elim (Bool-cases (ltb max_chunk_tokens (count_tokens s.text))) [
      | inl large ↦
          rw (e, large)
            (add_out-Packed (flush p) s _ (flush-Packed p h) refl f
              (split_force_token_windows-Covers count_tokens s target_tokens))
      | inr small ↦ elim (Bool-cases (is_empty p.current_parts)) [
        | inl first ↦
            rw (e, small, first)
              (rw (is_empty→nil p.current_parts first) at
                (add_part-Packed p s (count_tokens s.text) h f))
        | inr more ↦
            elim (Bool-cases (
              should_add count_tokens target_tokens max_chunk_tokens p.current_tokens
                (p.current_tokens + count_tokens s.text))) [
                  | inl add ↦
                      rw (e, small, more, add)
                        (add_part-Packed p s (p.current_tokens + count_tokens s.text) h f)
                  | inr full ↦
                      rw (e, small, more, full)
                        (add_part-Packed (flush p) s (count_tokens s.text) (flush-Packed p h) f)
                ]
      ]
    ]
  ]

  pack_loop-Packed :
      {t : Text} {pos : ℕ} (p : Packing) (ss : List Span)
      → Packed t pos p
      → Placed (pos + length t) ss
      → Packed (t ++ joined ss) pos (pack_loop count_tokens target_tokens max_chunk_tokens p ss)
  unfolding pack_loop joined
  pack_loop-Packed p [] h k = rw append-nil h
  pack_loop-Packed {t} {pos} p (s ∷ ss) h k =
      let e : s.end ≡ pos + length (t ++ s.text) = omega (arith, k.1, length-append t s.text) in
      rw (← append_assoc) (
        pack_loop-Packed (pack_span count_tokens target_tokens max_chunk_tokens p s) ss
          (pack_span-Packed p s h (k.0, omega arith)) (rw e at k.2))

  -- Packing keeps every code point, in order, with offsets that fit.
  pub pack_spans-Covers :
      (t : Text) (pos : ℕ) (ss : List Span)
      → Covers t pos ss
      → Covers t pos (pack_spans count_tokens target_tokens max_chunk_tokens ss)
  unfolding pack_spans joined
  pack_spans-Covers t pos ss h =
      let start : Packing = record { out = []; current_parts = []; current_tokens = 0 } in
      let nothing : Packed [] pos start = record {
        same_text = refl;
        out_placed = tt;
        parts_placed = tt;
      } in
      let e : pos + 0 ≡ pos = omega arith in
      let final = flush-Packed _ (pack_loop-Packed start ss nothing (rw e h.placed)) in
      record {
        same_text = rw append-nil at (final.same_text ∙ h.same_text);
        placed = final.out_placed;
      }
