-- ===== src/Base/Paths.antt =====
-- `PurePosixPath` of Python 3.13, as far as the sources use it: a path is its text.
use Prim.Native.Nat.{ℕ, suc, ◌+◌}
use mathlib.Core.Path.{◌≡◌, refl, ap}
use mathlib.Core.Logic.{◌≢◌, inl, inr}
use mathlib.Core.Bool.{Bool, true, false, not, ◌&&◌, ◌||◌}
use mathlib.Core.List.{List, [], ◌∷◌, ◌++◌}
use native.Mathlib.Omega.{arith}
use mathlib.Core.Option.{Option, none, some}
use docrunr.Base.Tests.{ltb, if◌then◌else◌, Bool-cases, ◌==◌}
use docrunr.Base.Lists.{All, is_empty, length, take, drop}
use docrunr.Base.Strings.{Text, codes, text_eq, text_eq_iff, starts_with}

abbrev pub in_front : ℕ → List Text → List Text
in_front c [] = (c ∷ []) ∷ []
in_front c (part ∷ parts) = (c ∷ part) ∷ parts

-- `text.split("/")`
unfoldable pub split_slash : Text → List Text
split_slash [] = [] ∷ []
split_slash (c ∷ cs) = let rest = split_slash cs in if c == b'/' then [] ∷ rest else in_front c rest

-- `"/".join(parts)`
unfoldable pub join_parts : List Text → Text
join_parts [] = []
join_parts (part ∷ parts) =
    let rest = join_parts parts in elim parts [ [] ↦ part | p ∷ ps ↦ part ++ b'/' ∷ rest ]

abbrev pub is_kept : Text → Bool
is_kept part = not (is_empty part || text_eq part (codes "."))

unfoldable pub keep_parts : List Text → List Text
keep_parts [] = []
keep_parts (part ∷ parts) =
    let rest = keep_parts parts in if is_kept part then part ∷ rest else rest

-- The parts behind the root.
unfoldable pub path_tail : Text → List Text
unfolding split_slash keep_parts
path_tail text = keep_parts (split_slash text)

-- Two slashes in front are a root of their own, three and more are one.
abbrev pub root_parts : Text → List Text
root_parts text =
    if not (starts_with text (codes "/"))
    then []
    else if starts_with text (codes "//") && not (starts_with text (codes "///"))
    then codes "//" ∷ []
    else codes "/" ∷ []

-- `PurePosixPath(text).parts`
unfoldable pub path_parts : Text → List Text
unfolding path_tail starts_with
path_parts text = root_parts text ++ path_tail text

abbrev pub last_part : List Text → Text
last_part [] = []
last_part (part ∷ []) = part
last_part (part ∷ p ∷ ps) = last_part (p ∷ ps)

-- `PurePosixPath(text).name`
unfoldable pub path_name : Text → Text
unfolding path_tail
path_name text = last_part (path_tail text)

-- `name.rfind(".")`, with `none` for -1.
unfoldable pub rfind_dot : Text → Option ℕ
rfind_dot [] = none
rfind_dot (c ∷ cs) = elim (rfind_dot cs) [
  | some i ↦ some (suc i)
  | none ↦ if c == b'.' then some 0 else none
]

-- The stem of a name.
unfoldable pub stem_of : Text → Text
unfolding rfind_dot
stem_of name = elim (rfind_dot name) [
  | none ↦ name
  | some i ↦ if ltb 0 i && ltb (i + 1) (length name) then take i name else name
]

abbrev pub has_slash : Text → Bool
has_slash [] = false
has_slash (c ∷ cs) = (c == b'/') || has_slash cs

-- A part that is kept: it has no slash, and is neither empty nor ".".
abbrev pub IsPart : Text → Type 0
IsPart part = (has_slash part ≡ false) × (is_kept part ≡ true)

pub has_slash-append : (s t : Text) → has_slash (s ++ t) ≡ has_slash s || has_slash t
has_slash-append [] t = refl
has_slash-append (c ∷ cs) t = ground (arith, has_slash-append cs t)

pub text_ne-length : (s t : Text) → length s ≢ length t → text_eq s t ≡ false
text_ne-length s t h = elim (Bool-cases (text_eq s t)) [
  | inr other ↦ other
  | inl same ↦ absurd (h (ap (length {A = ℕ}) ((text_eq_iff s t).0 same)))
]

split_slash-part : (p : Text) → has_slash p ≡ false → split_slash p ≡ p ∷ []
unfolding split_slash
split_slash-part [] h = refl
split_slash-part (c ∷ cs) h =
    let other : (c == b'/') ≡ false = ground arith in
    rw (other, split_slash-part cs (ground arith)) refl

split_slash-append :
    (p t : Text) → has_slash p ≡ false → split_slash (p ++ b'/' ∷ t) ≡ p ∷ split_slash t
unfolding split_slash
split_slash-append [] t h = refl
split_slash-append (c ∷ cs) t h =
    let other : (c == b'/') ≡ false = ground arith in
    rw (other, split_slash-append cs t (ground arith)) refl

pub path_tail-join : (ps : List Text) → All IsPart ps → path_tail (join_parts ps) ≡ ps
unfolding path_tail join_parts keep_parts
path_tail-join [] h = refl
path_tail-join (p ∷ []) h = rw (split_slash-part p h.0.0, h.0.1) refl
path_tail-join (p ∷ q ∷ ps) h =
    rw (split_slash-append p (join_parts (q ∷ ps)) h.0.0, h.0.1)
      (ap (λ t. p ∷ t) (path_tail-join (q ∷ ps) h.1))

abbrev pub IsFlat : Text → Type 0
IsFlat part = has_slash part ≡ false

in_front-IsFlat :
    (c : ℕ) (ps : List Text) → (c == b'/') ≡ false → All IsFlat ps → All IsFlat (in_front c ps)
in_front-IsFlat c [] other h = (ground arith, tt)
in_front-IsFlat c (p ∷ ps) other h = (ground (arith, h.0), h.1)

pub split_slash-IsFlat : (text : Text) → All IsFlat (split_slash text)
unfolding split_slash
split_slash-IsFlat [] = (refl, tt)
split_slash-IsFlat (c ∷ cs) = elim (Bool-cases (c == b'/')) [
  | inl slash ↦ rw slash (refl, split_slash-IsFlat cs)
  | inr other ↦ rw other (in_front-IsFlat c (split_slash cs) other (split_slash-IsFlat cs))
]

keep_parts-IsPart : (ps : List Text) → All IsFlat ps → All IsPart (keep_parts ps)
unfolding keep_parts
keep_parts-IsPart [] h = tt
keep_parts-IsPart (p ∷ ps) h = elim (Bool-cases (is_kept p)) [
  | inl kept ↦ rw kept ((h.0, kept), keep_parts-IsPart ps h.1)
  | inr left ↦ rw left (keep_parts-IsPart ps h.1)
]

drop_one-IsPart : (ps : List Text) → All IsPart ps → All IsPart (drop 1 ps)
drop_one-IsPart [] h = tt
drop_one-IsPart (p ∷ ps) h = h.1

-- The parts behind the first one have no slash and are neither empty nor ".".
pub path_parts-behind : (text : Text) → All IsPart (drop 1 (path_parts text))
unfolding path_parts path_tail
path_parts-behind text =
    let h : All IsPart (path_tail text) =
      keep_parts-IsPart (split_slash text) (split_slash-IsFlat text) in
    elim (Bool-cases (starts_with text (codes "/"))) [
      | inr relative ↦ rw relative (drop_one-IsPart (path_tail text) h)
      | inl absolute ↦
          elim (Bool-cases
            (starts_with text (codes "//") && not (starts_with text (codes "///")))) [
              | inl two ↦ rw (absolute, two) h
              | inr one ↦ rw (absolute, one) h
            ]
    ]

-- A path whose first part is not a root is relative, and its parts are all of it.
pub relative_parts :
    (text : Text) (part : Text) (parts : List Text)
    → path_parts text ≡ part ∷ parts
    → has_slash part ≡ false
    → (starts_with text (codes "/") ≡ false) × (path_tail text ≡ part ∷ parts)
unfolding path_parts
relative_parts text part parts h flat = elim (Bool-cases (starts_with text (codes "/"))) [
  | inr relative ↦ (relative, rw relative at h)
  | inl absolute ↦
      elim (Bool-cases (starts_with text (codes "//") && not (starts_with text (codes "///")))) [
        | inl two ↦
            let root : codes "//" ≡ part = cc (rw (absolute, two) at h) in
            absurd (cc (flat, ap has_slash root))
        | inr one ↦
            let root : codes "/" ≡ part = cc (rw (absolute, one) at h) in
            absurd (cc (flat, ap has_slash root))
      ]
]
