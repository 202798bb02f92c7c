-- ===== src/Chunk/Section/Order.antt =====
-- The section states of a document stand in ascending order, and inside it.
use docrunr.Base.{
  ℕ, ◌+◌, ◌-◌, ◌≤◌, ◌<◌, ◌≡◌, List, [], ◌∷◌, ◌++◌, arith, Text, length, take, split_lines,
  length-append, length-take, Option-cases, Bool-cases, inl, inr, join, length-reverse,
  join-split_lines, ap,
}
use docrunr.Chunk.Heading.{fence_marker, atx_heading, atx_heading_bounds}
use docrunr.Chunk.Section.{
  SectionPathState, Scan, scan_start, strip_newline_front, rstrip_newline, scan_fence, scan_text,
  scan_line, scan_lines, build_section_path_states,
}
use mathlib.Core.List.{reverse}

-- Strictly ascending offsets from `lo` on and below `hi`, with one to six titles each.
abbrev pub Ascending : ℕ → List SectionPathState → ℕ → Type 0
Ascending lo [] hi = lo ≤ hi
Ascending lo (s ∷ ss) hi =
    (lo ≤ s.offset) × ((1 ≤ length s.path) × (length s.path ≤ 6)) × Ascending (s.offset + 1) ss hi

Ascending-weaken :
    (lo : ℕ) (ss : List SectionPathState) (hi hi' : ℕ)
    → hi ≤ hi'
    → Ascending lo ss hi
    → Ascending lo ss hi'
Ascending-weaken lo [] hi hi' le h = omega arith
Ascending-weaken lo (s ∷ ss) hi hi' le h =
    (h.0, h.1, Ascending-weaken (s.offset + 1) ss hi hi' le h.2)

Ascending-snoc :
    (lo : ℕ) (ss : List SectionPathState) (hi hi' : ℕ) (s : SectionPathState)
    → Ascending lo ss hi
    → hi ≤ s.offset
    → s.offset < hi'
    → (1 ≤ length s.path) × (length s.path ≤ 6)
    → Ascending lo (ss ++ s ∷ []) hi'
Ascending-snoc lo [] hi hi' s h a b p = (omega arith, p, omega arith)
Ascending-snoc lo (t ∷ ss) hi hi' s h a b p =
    (h.0, h.1, Ascending-snoc (t.offset + 1) ss hi hi' s h.2 a b p)

strip_newline_front-le : (s : Text) → length (strip_newline_front s) ≤ length s
unfolding strip_newline_front
strip_newline_front-le [] = omega arith
strip_newline_front-le (c ∷ s) = ground (arith, strip_newline_front-le s)

rstrip_newline-le : (s : Text) → length (rstrip_newline s) ≤ length s
unfolding rstrip_newline
rstrip_newline-le s = omega (
  arith,
  strip_newline_front-le (reverse s),
  length-reverse s,
  length-reverse (strip_newline_front (reverse s)),
)

abbrev IsOrdered : Scan → Type 0
IsOrdered scan = Ascending 0 scan.states scan.offset

states-scan_fence : (scan : Scan) (c n : ℕ) → (scan_fence scan c n).states ≡ scan.states
unfolding scan_fence
states-scan_fence scan c n = ground arith

-- The states after the two matches on a line, below the end of the line.
scan_text-Ascending :
    (scan : Scan) (line : Text) (hi : ℕ)
    → IsOrdered scan
    → scan.offset + length line ≤ hi
    → Ascending 0 (scan_text scan line).states hi
unfolding scan_text
scan_text-Ascending scan line hi h fits =
    let keep : Ascending 0 scan.states hi =
      Ascending-weaken 0 scan.states scan.offset hi (omega arith) h in
    elim (Option-cases (fence_marker line)) [
      | inr ((c, n), e) ↦ rw (e, scan_text) (rw (states-scan_fence scan c n) keep)
      | inl e ↦ elim (Bool-cases scan.in_fence) [
        | inl fenced ↦ rw (e, scan_text, fenced) keep
        | inr text ↦ elim (Option-cases (atx_heading line)) [
          | inl plain ↦ rw (e, scan_text, text, plain) keep
          | inr (heading, found) ↦
              let bounds = atx_heading_bounds line heading found in
              rw (e, scan_text, text, found)
                (Ascending-snoc 0 scan.states scan.offset hi _ h (omega arith)
                  (omega (arith, bounds.2))
                  (omega (
                    arith,
                    bounds.0,
                    bounds.1,
                    length-append (take (heading.level - 1) scan.active_path) (heading.title ∷ []),
                    length-take (heading.level - 1) scan.active_path,
                  )))
        ]
      ]
    ]

scan_line-IsOrdered : (scan : Scan) (line : Text) → IsOrdered scan → IsOrdered (scan_line scan line)
unfolding scan_line
scan_line-IsOrdered scan line h =
    scan_text-Ascending scan (rstrip_newline line) (scan.offset + length line) h
      (omega (arith, rstrip_newline-le line))

scan_lines-IsOrdered :
    (scan : Scan) (lines : List Text) → IsOrdered scan → IsOrdered (scan_lines scan lines)
unfolding scan_lines
scan_lines-IsOrdered scan [] h = h
scan_lines-IsOrdered scan (line ∷ lines) h =
    scan_lines-IsOrdered (scan_line scan line) lines (scan_line-IsOrdered scan line h)

-- After the loop `offset` is the length of the lines.
offset-scan_lines :
    (scan : Scan) (lines : List Text)
    → (scan_lines scan lines).offset ≡ scan.offset + length (join lines)
unfolding scan_lines scan_line join
offset-scan_lines scan [] = omega arith
offset-scan_lines scan (line ∷ lines) =
    omega (arith, offset-scan_lines (scan_line scan line) lines, length-append line (join lines))

-- The headings found in any document have strictly ascending offsets inside the document.
pub build_section_path_states-Ascending :
    (markdown : Text) → Ascending 0 (build_section_path_states markdown) (length markdown)
unfolding build_section_path_states
build_section_path_states-Ascending markdown =
    let scanned = scan_lines-IsOrdered scan_start (split_lines markdown) (omega arith) in
    Ascending-weaken 0 _ _ (length markdown)
      (omega (
        arith,
        offset-scan_lines scan_start (split_lines markdown),
        ap (length {A = ℕ}) (join-split_lines markdown),
      ))
      scanned
