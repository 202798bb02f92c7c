-- ===== src/Clean/Fence.antt =====
-- `_split_fenced_blocks` and `_is_fence_close_line` of core/src/docrunr/clean.py.
pub mod Blocks
pub mod Kinds
use docrunr.Base.{
  ℕ, Bool, true, false, ◌&&◌, ◌||◌, Option, none, some, List, [], ◌∷◌, ◌++◌, Text, length, drop,
  leb, ltb, ◌==◌, if◌then◌else◌, strip, is_empty, split_lines, join,
}

-- How many code points at the front pass a test.
unfoldable pub run : (ℕ → Bool) → Text → ℕ
run test [] = 0
run test (c ∷ s) = let rest = run test s in if test c then ℕ.suc rest else 0

-- `_FENCE_OPEN_RE.match(line)`: the fence's character and its length.
unfoldable pub fence_open : Text → Option (ℕ × ℕ)
unfolding run
fence_open line =
    let rest = drop (run (λ c. (c == b' ') || (c == 9)) line) line in
    let ticks = run (λ c. c == 96) rest in
    let tildes = run (λ c. c == b'~') rest in
    if leb 3 ticks then some (96, ticks) else if leb 3 tildes then some (b'~', tildes) else none

abbrev all_are : ℕ → Text → Bool
all_are c [] = true
all_are c (d ∷ s) = (d == c) && all_are c s

unfoldable pub is_fence_close_line : Text → ℕ → ℕ → Bool
unfolding strip
is_fence_close_line line fence_char min_len =
    if ltb (length (strip line)) min_len then false else all_are fence_char (strip line)

-- The variables of the loop; a part says whether it is a code block.
pub record Split : Type 0 where
  pub parts : List (Bool × Text)
  pub current : List Text
  pub in_fence : Bool
  pub fence_char : ℕ
  pub min_len : ℕ

-- `if current: parts.append((is_fenced, "".join(current)))`
unfoldable pub add_block : Bool → List Text → List (Bool × Text) → List (Bool × Text)
unfolding join
add_block is_fenced [] parts = parts
add_block is_fenced (l ∷ ls) parts = parts ++ (is_fenced, join (l ∷ ls)) ∷ []

-- A line inside a code block.
take_inside : Text → Split → Split
unfolding is_fence_close_line join
take_inside line s =
    let current = s.current ++ line ∷ [] in
    if is_fence_close_line line s.fence_char s.min_len
    then record s { parts = s.parts ++ (true, join current) ∷ []; current = []; in_fence = false }
    else record s { current = current }

-- A line outside.
take_outside : Text → Split → Split
unfolding fence_open add_block
take_outside line s = elim (fence_open line) [
  | none ↦ record s { current = s.current ++ line ∷ [] }
  | some (fence_char, min_len) ↦ record {
    parts = add_block false s.current s.parts;
    current = line ∷ [];
    in_fence = true;
    fence_char = fence_char;
    min_len = min_len;
  }
]

take_line : Text → Split → Split
unfolding take_inside take_outside
take_line line s = if s.in_fence then take_inside line s else take_outside line s

take_lines : List Text → Split → Split
unfolding take_line
take_lines [] s = s
take_lines (line ∷ lines) s = take_lines lines (take_line line s)

abbrev pub split_start : Split
split_start = record { parts = []; current = []; in_fence = false; fence_char = 0; min_len = 0 }

blocks_of : List Text → Text → List (Bool × Text)
unfolding take_lines add_block
blocks_of [] text = (false, text) ∷ []
blocks_of (line ∷ lines) text =
    let s = take_lines (line ∷ lines) split_start in add_block s.in_fence s.current s.parts

unfoldable pub split_fenced_blocks : Text → List (Bool × Text)
unfolding blocks_of split_lines
split_fenced_blocks text = blocks_of (split_lines text) text
