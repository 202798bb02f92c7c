-- ===== src/Base/Number.antt =====
-- Python's integers, and `int(text, 10)`. Digits are the ASCII ones.
use Prim.Native.Nat.{ℕ, zero, suc, ◌+◌, ◌-◌, ◌*◌}
use mathlib.Core.Bool.{Bool, true, false, ◌&&◌}
use mathlib.Core.Option.{Option, none, some}
use mathlib.Core.List.{[], ◌∷◌}
use docrunr.Base.Tests.{leb, ◌==◌, if◌then◌else◌}
use docrunr.Base.Strings.{Text, strip}

-- `negsuc n` is -(n + 1).
pub data ℤ : Type 0 where
  pos : ℕ → ℤ
  negsuc : ℕ → ℤ

abbrev pub negate : ℕ → ℤ
negate zero = pos 0
negate (suc n) = negsuc n

abbrev pub is_digit : ℕ → Bool
is_digit c = leb b'0' c && leb c b'9'

-- Digits, with single underscores between them; the flag says that a digit must come next.
unfoldable pub parse_digits : Bool → ℕ → Text → Option ℕ
parse_digits must acc [] = if must then none else some acc
parse_digits must acc (c ∷ s) =
    let digit = parse_digits false (acc * 10 + (c - b'0')) s in
    let underscore = parse_digits true acc s in
    if is_digit c then digit else if must then none else if c == b'_' then underscore else none

abbrev pub signed : Bool → Option ℕ → Option ℤ
signed minus none = none
signed minus (some n) = if minus then some (negate n) else some (pos n)

unfoldable pub parse_signed : Text → Option ℤ
parse_signed [] = none
parse_signed (c ∷ s) =
    if c == b'-'
    then signed true (parse_digits true 0 s)
    else if c == b'+'
    then signed false (parse_digits true 0 s)
    else signed false (parse_digits true 0 (c ∷ s))

-- `int(text, 10)`, with `none` for `ValueError`
unfoldable pub parse_int : Text → Option ℤ
unfolding parse_signed parse_digits
parse_int text = parse_signed (strip text)
