-- ===== src/Base/Digits.antt =====
-- Printing a number and reading it back.
use Prim.Native.Nat.{ℕ, zero, suc, ◌+◌, ◌-◌, ◌*◌, ◌/◌, ◌%◌, ◌<◌, ◌≤◌}
use mathlib.Core.Path.{◌≡◌, refl, ◌∙◌}
use mathlib.Core.Logic.{inl, inr}
use mathlib.Core.Bool.{Bool, true, false}
use mathlib.Core.Option.{none, some}
use mathlib.Core.List.{[], ◌∷◌, ◌++◌, reverse, reverse-cons, reverse-reverse}
use native.Mathlib.Omega.{arith}
use docrunr.Base.Tests.{ltb, Bool-cases}
use docrunr.Base.Lists.{All, All-append, is_empty}
use docrunr.Base.Strings.{Text, is_space, lstrip, rstrip, strip}
use docrunr.Base.Decimal.{decimal, decimal_from}
use docrunr.Base.Number.{pos, parse_digits, parse_signed, parse_int}

abbrev pub IsDigit : ℕ → Type 0
IsDigit c = (b'0' ≤ c) × (c ≤ b'9')

decimal_from-IsDigit : (fuel n : ℕ) → All IsDigit (decimal_from fuel n)
unfolding decimal_from
decimal_from-IsDigit zero n = tt
decimal_from-IsDigit (suc fuel) n = elim (Bool-cases (ltb n 10)) [
  | inl small ↦ rw small (ground arith, tt)
  | inr large ↦
      rw large (All-append IsDigit _ _ (decimal_from-IsDigit fuel (n / 10)) (omega arith, tt))
]

lstrip-digits : (s : Text) → All IsDigit s → lstrip s ≡ s
unfolding lstrip is_space
lstrip-digits [] h = refl
lstrip-digits (c ∷ s) h = ground arith

All-reverse : (s : Text) → All IsDigit s → All IsDigit (reverse s)
All-reverse [] h = tt
All-reverse (c ∷ s) h =
    rw (reverse-cons c s) (All-append IsDigit (reverse s) (c ∷ []) (All-reverse s h.1) (h.0, tt))

strip-digits : (s : Text) → All IsDigit s → strip s ≡ s
unfolding strip rstrip
strip-digits s h =
    rw (lstrip-digits s h, lstrip-digits (reverse s) (All-reverse s h)) (reverse-reverse s)

pub strip-decimal : (n : ℕ) → strip (decimal n) ≡ decimal n
unfolding decimal
strip-decimal n = strip-digits (decimal_from (suc n) n) (decimal_from-IsDigit (suc n) n)

parse_digits-snoc :
    (must : Bool) (acc v c : ℕ) (s : Text)
    → IsDigit c
    → parse_digits must acc s ≡ some v
    → parse_digits must acc (s ++ c ∷ []) ≡ some (v * 10 + (c - b'0'))
unfolding parse_digits
parse_digits-snoc must acc v c [] d h = ground arith
parse_digits-snoc must acc v c (x ∷ s) d h = ground (
  arith,
  parse_digits-snoc false (acc * 10 + (x - b'0')) v c s d,
  parse_digits-snoc true acc v c s d,
)

parse_digits-decimal_from :
    (fuel n : ℕ) → n < fuel → parse_digits true 0 (decimal_from fuel n) ≡ some n
unfolding decimal_from
parse_digits-decimal_from zero n h = elim h [ ]
parse_digits-decimal_from (suc fuel) n h = elim (Bool-cases (ltb n 10)) [
  | inl small ↦ rw small (unfold parse_digits in ground arith)
  | inr large ↦
      let front = parse_digits-decimal_from fuel (n / 10) (ground arith) in
      rw large (
        parse_digits-snoc true 0 (n / 10) (b'0' + n % 10) (decimal_from fuel (n / 10)) (omega arith)
          front
        ∙ cc (omega-eq n))
]
  where
    omega-eq : (n : ℕ) → n / 10 * 10 + (b'0' + n % 10 - b'0') ≡ n
    omega-eq n = omega arith

parse_signed-digits :
    (s : Text)
    → All IsDigit s
    → is_empty s ≡ false
    → parse_signed s ≡ (elim (parse_digits true 0 s) [ none ↦ none | some n ↦ some (pos n) ])
unfolding parse_signed
parse_signed-digits [] h ne = cc
parse_signed-digits (c ∷ s) h ne = ground arith

decimal_from-nonempty : (fuel n : ℕ) → is_empty (decimal_from (suc fuel) n) ≡ false
unfolding decimal_from
decimal_from-nonempty fuel n = elim (Bool-cases (ltb n 10)) [
  | inl small ↦ rw small refl
  | inr large ↦ rw large (snoc-nonempty (decimal_from fuel (n / 10)) _)
]
  where
    snoc-nonempty : (s : Text) (c : ℕ) → is_empty (s ++ c ∷ []) ≡ false
    snoc-nonempty [] c = refl
    snoc-nonempty (x ∷ s) c = refl

pub decimal-nonempty : (n : ℕ) → is_empty (decimal n) ≡ false
unfolding decimal
decimal-nonempty n = decimal_from-nonempty n n

pub parse_int-decimal : (n : ℕ) → parse_int (decimal n) ≡ some (pos n)
unfolding parse_int
parse_int-decimal n = rw (strip-decimal n) (
    unfold decimal in
    (parse_signed-digits (decimal_from (suc n) n) (decimal_from-IsDigit (suc n) n)
        (decimal_from-nonempty n n)
      ∙ rw (parse_digits-decimal_from (suc n) n (omega arith)) refl))
