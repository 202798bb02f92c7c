-- ===== src/Clean/Fence/Kinds.antt =====
-- Which blocks are code, by the lines of the text.
use docrunr.Base.{ℕ, ◌≡◌, Bool, true, false, none, some, List, [], ◌∷◌, ◌++◌, map, Text, join, All}
use docrunr.Clean.Fence.{fence_open, is_fence_close_line, Split}

-- A line that opens no fence.
abbrev pub IsPlain : Text → Type 0
IsPlain line = fence_open line ≡ none

-- A line that does not close the fence of a marker.
abbrev pub IsInside : ℕ × ℕ → Text → Type 0
IsInside (fence_char, min_len) line = is_fence_close_line line fence_char min_len ≡ false

-- The end of a block of code: one line that closes its fence, or none.
abbrev pub IsEnd : ℕ × ℕ → List Text → Type 0
IsEnd marker [] = Unit
IsEnd (fence_char, min_len) (line ∷ lines) =
    (is_fence_close_line line fence_char min_len ≡ true) × (lines ≡ [])

-- A line that opens a fence, lines that do not close it, and the end.
pub record IsCode (lines : List Text) : Type 0 where
  pub opener : Text
  pub inner : List Text
  pub end : List Text
  pub marker : ℕ × ℕ
  pub same_lines : lines ≡ opener ∷ (inner ++ end)
  pub opens : fence_open opener ≡ some marker
  pub inside : All (IsInside marker) inner
  pub ends : IsEnd marker end

abbrev pub IsGroup : Bool × List Text → Type 0
IsGroup (true, lines) = IsCode lines
IsGroup (false, lines) = All IsPlain lines

abbrev pub all_lines : List (Bool × List Text) → List Text
all_lines [] = []
all_lines ((is_fenced, lines) ∷ groups) = lines ++ all_lines groups

abbrev pub block_of : Bool × List Text → Bool × Text
block_of (is_fenced, lines) = (is_fenced, join lines)

-- The lines stand in groups, of which each is a block.
pub record IsDivided (lines : List Text) (blocks : List (Bool × Text)) : Type 0 where
  pub groups : List (Bool × List Text)
  pub joined : blocks ≡ map block_of groups
  pub complete : all_lines groups ≡ lines
  pub kinds : All IsGroup groups

-- A fence that is open, with its marker.
record IsOpen (s : Split) : Type 0 where
  opener : Text
  inner : List Text
  same_lines : s.current ≡ opener ∷ inner
  opens : fence_open opener ≡ some (s.fence_char, s.min_len)
  inside : All (IsInside (s.fence_char, s.min_len)) inner

abbrev CurrentIs : Bool → Split → Type 0
CurrentIs true s = IsOpen s
CurrentIs false s = All IsPlain s.current

-- The state behind some lines of the text.
record IsScanning (lines : List Text) (s : Split) : Type 0 where
  before : List Text
  blocks : IsDivided before s.parts
  same_lines : before ++ s.current ≡ lines
  held : CurrentIs s.in_fence s
