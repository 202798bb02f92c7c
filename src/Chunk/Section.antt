-- ===== src/Chunk/Section.antt =====
-- The section paths of core/src/docrunr/chunk.py: `_build_section_path_states` and
-- `_SectionPathResolver`.
pub mod Order
pub mod Resolve
use mathlib.Core.List.{reverse}
use docrunr.Base.{
  ℕ, suc, ◌+◌, ◌-◌, ◌≤◌, ◌<◌, ◌≡◌, refl, Bool, true, false, not, ◌&&◌, ◌||◌, Option, none, some,
  List, [], ◌∷◌, ◌++◌, arith, Text, length, take, leb, ltb, ◌==◌, if◌then◌else◌, split_lines,
  length-append, length-take, Option-cases, Bool-cases, inl, inr, join,
}
use docrunr.Chunk.Heading.{Heading, fence_marker, atx_heading, atx_heading_bounds}

-- `_SectionPathState`
pub record SectionPathState : Type 0 where
  pub offset : ℕ
  pub path : List Text

-- The variables of the loop over the lines.
pub record Scan : Type 0 where
  pub states : List SectionPathState
  pub active_path : List Text
  pub in_fence : Bool
  pub fence_char : ℕ
  pub fence_size : ℕ
  pub offset : ℕ

abbrev pub scan_start : Scan
scan_start = record {
  states = [];
  active_path = [];
  in_fence = false;
  fence_char = 0;
  fence_size = 0;
  offset = 0;
}

-- `line.rstrip("\n\r")`
strip_newline_front : Text → Text
strip_newline_front [] = []
strip_newline_front (c ∷ s) =
    let rest = strip_newline_front s in if (c == 10) || (c == 13) then rest else c ∷ s

unfoldable pub rstrip_newline : Text → Text
unfolding strip_newline_front
rstrip_newline s = reverse (strip_newline_front (reverse s))

-- A line with a fence marker opens a fence, closes the open one or is inside it.
scan_fence : Scan → ℕ → ℕ → Scan
scan_fence scan marker_char marker_len =
    if not scan.in_fence
    then record scan { in_fence = true; fence_char = marker_char; fence_size = marker_len }
    else if (marker_char == scan.fence_char) && leb scan.fence_size marker_len
    then record scan { in_fence = false; fence_char = 0; fence_size = 0 }
    else scan

scan_heading : Scan → Heading → Scan
scan_heading scan heading =
    let path = take (heading.level - 1) scan.active_path ++ heading.title ∷ [] in
    record scan {
      active_path = path;
      states = scan.states ++ record { offset = scan.offset + heading.indent; path = path } ∷ [];
    }

-- The two matches of the body of the loop, before `offset += len(line)`.
scan_text : Scan → Text → Scan
unfolding scan_fence scan_heading
scan_text scan line = elim (fence_marker line) [
  | some (marker_char, marker_len) ↦ scan_fence scan marker_char marker_len
  | none ↦
      if scan.in_fence
      then scan
      else (elim (atx_heading line) [ none ↦ scan | some heading ↦ scan_heading scan heading ])
]

pub scan_line : Scan → Text → Scan
unfolding scan_text
scan_line scan line = record (scan_text scan (rstrip_newline line)) {
  offset = scan.offset + length line;
}

scan_lines : Scan → List Text → Scan
scan_lines scan [] = scan
scan_lines scan (line ∷ lines) = scan_lines (scan_line scan line) lines

unfoldable pub build_section_path_states : Text → List SectionPathState
unfolding scan_lines scan_line
build_section_path_states markdown = (scan_lines scan_start (split_lines markdown)).states

-- `bisect_right`: how many of the ordered positions are at most `offset`.
unfoldable pub bisect_right : List ℕ → ℕ → ℕ
bisect_right [] offset = 0
bisect_right (p ∷ positions) offset =
    let rest = bisect_right positions offset in if leb p offset then suc rest else 0

path_at : List SectionPathState → ℕ → List Text
path_at [] idx = []
path_at (s ∷ states) ℕ.zero = s.path
path_at (s ∷ states) (suc idx) = path_at states idx

abbrev pub positions : List SectionPathState → List ℕ
positions [] = []
positions (s ∷ ss) = s.offset ∷ positions ss

-- `_SectionPathResolver.path_for`: `idx < 0` is the case that `bisect_right` gives 0.
unfoldable pub path_for : List SectionPathState → ℕ → List Text
unfolding path_at bisect_right
path_for states offset =
    let at = bisect_right (positions states) offset in
    if at == 0 then [] else path_at states (at - 1)
