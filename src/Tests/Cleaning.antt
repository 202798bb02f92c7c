-- ===== src/Tests/Cleaning.antt =====
-- The split of a text into blocks at concrete inputs.
use docrunr.Base.{◌≡◌, refl, true, false, [], ◌∷◌, Text, codes}
use docrunr.Clean.Fence.{split_fenced_blocks}
use docrunr.Clean.Fence.Blocks.{join_blocks, join_blocks-split_fenced_blocks}

abbrev code_between : Text
code_between = codes "a\n```py\nx\n```\nb"

join_blocks-split_fenced_blocks_example :
    join_blocks (split_fenced_blocks code_between) ≡ code_between
join_blocks-split_fenced_blocks_example = join_blocks-split_fenced_blocks code_between

three_blocks :
    split_fenced_blocks code_between
    ≡ (false, codes "a\n") ∷ (true, codes "```py\nx\n```\n") ∷ (false, codes "b") ∷ []
unfolding split_fenced_blocks
three_blocks = refl
