-- ===== src/Base/Order.antt =====
-- `<` and `max` of Python strings: the lexicographic order of the code points.
use mathlib.Core.Path.{◌≡◌, refl}
use mathlib.Core.Bool.{Bool, true, false}
use mathlib.Core.List.{[], ◌∷◌}
use native.Mathlib.Omega.{arith}
use docrunr.Base.Tests.{ltb, if◌then◌else◌}
use docrunr.Base.Strings.{Text}

-- `s < t`
unfoldable pub text_ltb : Text → Text → Bool
text_ltb s [] = false
text_ltb [] (y ∷ ys) = true
text_ltb (x ∷ xs) (y ∷ ys) =
    let rest = text_ltb xs ys in if ltb x y then true else if ltb y x then false else rest

pub text_ltb_irrefl : (s : Text) → text_ltb s s ≡ false
unfolding text_ltb
text_ltb_irrefl [] = refl
text_ltb_irrefl (x ∷ xs) = ground (arith, text_ltb_irrefl xs)

pub text_ltb_trans :
    (s t u : Text) → text_ltb s t ≡ true → text_ltb t u ≡ true → text_ltb s u ≡ true
unfolding text_ltb
text_ltb_trans s t [] h k = ground arith
text_ltb_trans s [] (z ∷ zs) h k = ground arith
text_ltb_trans [] (y ∷ ys) (z ∷ zs) h k = refl
text_ltb_trans (x ∷ xs) (y ∷ ys) (z ∷ zs) h k = ground (arith, text_ltb_trans xs ys zs)

pub text_ltb_connex : (s t : Text) → text_ltb s t ≡ false → text_ltb t s ≡ false → s ≡ t
unfolding text_ltb
text_ltb_connex [] [] h k = refl
text_ltb_connex [] (y ∷ ys) h k = ground arith
text_ltb_connex (x ∷ xs) [] h k = ground arith
text_ltb_connex (x ∷ xs) (y ∷ ys) h k = ground (arith, text_ltb_connex xs ys)

abbrev pub text_max : Text → Text → Text
text_max s t = if text_ltb s t then t else s

pub text_max_assoc : (s t u : Text) → text_max (text_max s t) u ≡ text_max s (text_max t u)
text_max_assoc s t u = ground (
  arith,
  text_ltb_trans s t u,
  text_ltb_trans u s t,
  text_ltb_trans t u s,
  text_ltb_trans s u t,
  text_ltb_trans u t s,
  text_ltb_trans t s u,
  text_ltb_connex s t,
  text_ltb_connex t u,
  text_ltb_connex s u,
  text_ltb_irrefl s,
  text_ltb_irrefl t,
)
