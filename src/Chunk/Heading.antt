-- ===== src/Chunk/Heading.antt =====
-- `_FENCE_RE` and `_ATX_HEADING_RE` of core/src/docrunr/chunk.py, as functions on a line.
use docrunr.Base.{
  ℕ, suc, ◌≤◌, ◌<◌, ◌≡◌, Bool, ◌&&◌, ◌||◌, Option, none, some, [], ◌∷◌, arith, Text, length, drop,
  leb, ltb, ◌==◌, if◌then◌else◌, strip, is_empty, length-drop,
}

-- `[ \t]`
abbrev is_blank : ℕ → Bool
is_blank c = (c == b' ') || (c == 9)

-- How many code points at the front pass a test, `limit` at most.
unfoldable pub run : (ℕ → Bool) → ℕ → Text → ℕ
run test ℕ.zero s = 0
run test (suc limit) [] = 0
run test (suc limit) (c ∷ s) = let rest = run test limit s in if test c then suc rest else 0

pub run-le :
    (test : ℕ → Bool) (limit : ℕ) (s : Text)
    → (run test limit s ≤ limit) × (run test limit s ≤ length s)
unfolding run
run-le test ℕ.zero s = (omega arith, omega arith)
run-le test (suc limit) [] = (omega arith, omega arith)
run-le test (suc limit) (c ∷ s) = ground (arith, run-le test limit s)

abbrev full_run : (ℕ → Bool) → Text → ℕ
full_run test s = run test (length s) s

-- `_FENCE_RE.match`: the marker's character and its length.
unfoldable pub fence_marker : Text → Option (ℕ × ℕ)
unfolding run
fence_marker [] = none
fence_marker (c ∷ s) =
    let rest = drop (run is_blank 3 (c ∷ s)) (c ∷ s) in
    let ticks = full_run (λ d. d == 96) rest in
    let tildes = full_run (λ d. d == b'~') rest in
    if leb 3 ticks then some (96, ticks) else if leb 3 tildes then some (b'~', tildes) else none

-- `[ \t]*(?:#+[ \t]*)?$`
unfoldable pub is_closing : Text → Bool
unfolding run
is_closing s =
    let t = drop (full_run is_blank s) s in
    let u = drop (full_run (λ d. d == b'#') t) t in
    is_empty t || (ltb 0 (full_run (λ d. d == b'#') t) && is_empty (drop (full_run is_blank u) u))

-- `(.+?)` before the closing sequence: the shortest text that is not empty.
unfoldable pub heading_title : Text → Text
unfolding is_closing
heading_title [] = []
heading_title (c ∷ s) = let rest = heading_title s in if is_closing s then c ∷ [] else c ∷ rest

pub record Heading : Type 0 where
  pub indent : ℕ
  pub level : ℕ
  pub title : Text

-- `_ATX_HEADING_RE.match`, and `title` stripped; `none` also where the title is empty, since the
-- caller goes on as it does where nothing matches.
unfoldable pub atx_heading : Text → Option Heading
unfolding run heading_title
atx_heading line =
    let indent = run (λ d. d == b' ') 3 line in
    let body = drop indent line in
    let level = run (λ d. d == b'#') 6 body in
    let rest = drop level body in
    let blanks = full_run is_blank rest in
    let title = strip (heading_title (drop blanks rest)) in
    if (ltb 0 level && ltb 0 blanks) && ltb 0 (length title)
    then some (record { indent = indent; level = level; title = title })
    else none

-- A heading has level 1 to 6, and its marker stands inside the line.
pub atx_heading_bounds :
    (line : Text) (h : Heading)
    → atx_heading line ≡ some h
    → (1 ≤ h.level) × (h.level ≤ 6) × (h.indent < length line)
unfolding atx_heading
atx_heading_bounds line h e =
    let indent = run (λ d. d == b' ') 3 line in
    let level = run-le (λ d. d == b'#') 6 (drop indent line) in
    let shorter = length-drop indent line in ground arith
