-- ===== src/Clean/Fence/Blocks.antt =====
-- The blocks are the text, and the code blocks are those that begin with a fence.
use docrunr.Base.{
  ◌≡◌, refl, Bool, true, false, List, [], ◌∷◌, ◌++◌, Text, split_lines, join, join-split_lines,
  append-nil, append_assoc, Bool-cases, Option-cases, inl, inr, ap, ◌∙◌, sym,
}
use docrunr.Clean.Fence.{
  fence_open, is_fence_close_line, Split, add_block, take_inside, take_outside, take_line,
  take_lines, split_start, blocks_of, split_fenced_blocks,
}

-- The texts of the blocks, one behind the other.
abbrev pub join_blocks : List (Bool × Text) → Text
join_blocks [] = []
join_blocks ((is_fenced, block) ∷ blocks) = block ++ join_blocks blocks

join_blocks-append :
    (xs ys : List (Bool × Text)) → join_blocks (xs ++ ys) ≡ join_blocks xs ++ join_blocks ys
join_blocks-append [] ys = refl
join_blocks-append ((b, x) ∷ xs) ys =
    ap (λ t. x ++ t) (join_blocks-append xs ys)
    ∙ sym (append_assoc x (join_blocks xs) (join_blocks ys))

join-append : (xs ys : List Text) → join (xs ++ ys) ≡ join xs ++ join ys
unfolding join
join-append [] ys = refl
join-append (x ∷ xs) ys =
    ap (λ t. x ++ t) (join-append xs ys) ∙ sym (append_assoc x (join xs) (join ys))

-- What has been read.
abbrev read_so_far : Split → Text
read_so_far s = join_blocks s.parts ++ join s.current

add_block-read :
    (is_fenced : Bool) (current : List Text) (parts : List (Bool × Text))
    → join_blocks (add_block is_fenced current parts) ≡ join_blocks parts ++ join current
unfolding join add_block
add_block-read is_fenced [] parts = sym (append-nil (join_blocks parts))
add_block-read is_fenced (l ∷ ls) parts =
    join_blocks-append parts ((is_fenced, join (l ∷ ls)) ∷ [])
    ∙ ap (λ t. join_blocks parts ++ t) (append-nil (join (l ∷ ls)))

join-one_more : (ls : List Text) (line : Text) → join (ls ++ line ∷ []) ≡ join ls ++ line
unfolding join
join-one_more ls line = join-append ls (line ∷ []) ∙ ap (λ t. join ls ++ t) (append-nil line)

-- A line that is added to the lines at hand.
one_more-read :
    (s : Split) (line : Text)
    → join_blocks s.parts ++ join (s.current ++ line ∷ []) ≡ read_so_far s ++ line
one_more-read s line =
    ap (λ t. join_blocks s.parts ++ t) (join-one_more s.current line)
    ∙ sym (append_assoc (join_blocks s.parts) (join s.current) line)

add_block-closed :
    (parts : List (Bool × Text)) (text : Text)
    → join_blocks (parts ++ (true, text) ∷ []) ≡ join_blocks parts ++ text
add_block-closed parts text =
    join_blocks-append parts ((true, text) ∷ [])
    ∙ ap (λ t. join_blocks parts ++ t) (append-nil text)

take_line-read : (line : Text) (s : Split) → read_so_far (take_line line s) ≡ read_so_far s ++ line
unfolding take_line take_inside take_outside join
take_line-read line s = elim (Bool-cases s.in_fence) [
  | inl inside ↦ elim (Bool-cases (is_fence_close_line line s.fence_char s.min_len)) [
    | inl closes ↦
        rw (inside, closes)
          (append-nil _
            ∙ add_block-closed s.parts (join (s.current ++ line ∷ []))
            ∙ one_more-read s line)
    | inr stays ↦ rw (inside, stays) (one_more-read s line)
  ]
  | inr outside ↦ elim (Option-cases (fence_open line)) [
    | inl plain ↦ rw (outside, plain, take_outside) (one_more-read s line)
    | inr ((fence_char, min_len), opens) ↦
        rw (outside, opens, take_outside)
          (ap (λ t. t ++ (line ++ [])) (add_block-read false s.current s.parts)
            ∙ ap (λ t. read_so_far s ++ t) (append-nil line))
  ]
]

take_lines-read :
    (lines : List Text) (s : Split) → read_so_far (take_lines lines s) ≡ read_so_far s ++ join lines
unfolding take_lines join
take_lines-read [] s = sym (append-nil (read_so_far s))
take_lines-read (line ∷ lines) s =
    take_lines-read lines (take_line line s)
    ∙ ap (λ t. t ++ join lines) (take_line-read line s)
    ∙ append_assoc (read_so_far s) line (join lines)

blocks_of-read :
    (lines : List Text) (text : Text)
    → join lines ≡ text
    → join_blocks (blocks_of lines text) ≡ text
unfolding blocks_of join
blocks_of-read [] text e = append-nil text
blocks_of-read (line ∷ lines) text e =
    let s = take_lines (line ∷ lines) split_start in
    add_block-read s.in_fence s.current s.parts ∙ take_lines-read (line ∷ lines) split_start ∙ e

-- Splitting loses nothing: the blocks, one behind the other, are the text.
pub join_blocks-split_fenced_blocks : (text : Text) → join_blocks (split_fenced_blocks text) ≡ text
unfolding split_fenced_blocks
join_blocks-split_fenced_blocks text =
    blocks_of-read (split_lines text) text (join-split_lines text)
