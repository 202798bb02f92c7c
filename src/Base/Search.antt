-- ===== src/Base/Search.antt =====
-- Where `find?` finds, there is room for what it looked for.
use mathlib.Core.Path.{◌≡◌}
use mathlib.Core.Option.{some}
use mathlib.Core.List.{[], ◌∷◌}
use Prim.Native.Nat.{ℕ, zero, suc, ◌+◌, ◌≤◌}
use mathlib.Core.Bool.{true}
use native.Mathlib.Omega.{arith}
use docrunr.Base.Lists.{length}
use docrunr.Base.Strings.{Text, starts_with, find?}

pub length_le_of_starts_with : (s t : Text) → starts_with s t ≡ true → length t ≤ length s
unfolding starts_with
length_le_of_starts_with s [] h = omega arith
length_le_of_starts_with [] (y ∷ ys) h = cc
length_le_of_starts_with (x ∷ xs) (y ∷ ys) h = ground (arith, length_le_of_starts_with xs ys)

pub find?-le : (s t : Text) (i : ℕ) → find? s t ≡ some i → i + length t ≤ length s
unfolding find?
find?-le [] [] i h = ground arith
find?-le [] (y ∷ t) i h = ground arith
find?-le (x ∷ s) t zero h = ground (arith, length_le_of_starts_with (x ∷ s) t)
find?-le (x ∷ s) t (suc i) h = ground (arith, find?-le s t i)
