-- ===== src/Base/Lines.antt =====
-- `str.splitlines(keepends=True)`.
use mathlib.Core.Path.{◌≡◌, refl}
use mathlib.Core.Bool.{Bool, not, ◌&&◌, ◌||◌}
use mathlib.Core.List.{List, [], ◌∷◌, ◌++◌}
use Prim.Native.Nat.{ℕ}
use native.Mathlib.Omega.{arith}
use docrunr.Base.Tests.{leb, ◌==◌, if◌then◌else◌}
use docrunr.Base.Strings.{Text, starts_with}

-- The line boundaries of `str.splitlines`.
abbrev is_line_break : ℕ → Bool
is_line_break c =
    (leb 10 c && leb c 13) || (leb 28 c && leb c 30) || (c == 133) || (c == 8232) || (c == 8233)

-- Whether a line ends behind `c`, where `s` follows: "\r\n" is one boundary.
unfoldable pub ends_line : ℕ → Text → Bool
unfolding starts_with
ends_line c s = is_line_break c && not ((c == 13) && starts_with s (10 ∷ []))

abbrev pub cons_first : ℕ → List Text → List Text
cons_first c [] = (c ∷ []) ∷ []
cons_first c (l ∷ ls) = (c ∷ l) ∷ ls

unfoldable pub split_lines : Text → List Text
unfolding ends_line
split_lines [] = []
split_lines (c ∷ s) =
    let rest = split_lines s in if ends_line c s then (c ∷ []) ∷ rest else cons_first c rest

-- `"".join(lines)`
unfoldable pub join : List Text → Text
join [] = []
join (l ∷ ls) = l ++ join ls

join-cons_first : (c : ℕ) (ls : List Text) → join (cons_first c ls) ≡ c ∷ join ls
unfolding join
join-cons_first c [] = refl
join-cons_first c (l ∷ ls) = refl

pub join-split_lines : (s : Text) → join (split_lines s) ≡ s
unfolding join split_lines
join-split_lines [] = refl
join-split_lines (c ∷ s) = ground (arith, join-split_lines s, join-cons_first c (split_lines s))
