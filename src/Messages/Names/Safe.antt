-- ===== src/Messages/Names/Safe.antt =====
-- The name that `safe_client_filename` gives holds no path.
use mathlib.Core.List.{reverse, reverse-cons}
use docrunr.Base.{
  ℕ, ◌≡◌, refl, false, List, [], ◌∷◌, Text, is_empty, strip, lstrip, rstrip, is_space, ◌==◌, All,
  All-append, arith, Bool-cases, inl, inr, path_name, path_tail, split_slash, in_front, keep_parts,
  is_kept, last_part, has_slash, IsFlat, split_slash-IsFlat,
}
use docrunr.Messages.Names.{replace_backslash, safe_client_filename}

abbrev pub IsNameChar : ℕ → Type 0
IsNameChar c = ((c == b'/') ≡ false) × ((c == 92) ≡ false)

module _ (Q : ℕ → Type 0) where
  All-reverse : (s : Text) → All Q s → All Q (reverse s)
  All-reverse [] h = tt
  All-reverse (c ∷ s) h =
      rw (reverse-cons c s) (All-append Q (reverse s) (c ∷ []) (All-reverse s h.1) (h.0, tt))

  All-lstrip : (s : Text) → All Q s → All Q (lstrip s)
  unfolding lstrip
  All-lstrip [] h = tt
  All-lstrip (c ∷ s) h = elim (Bool-cases (is_space c)) [
    | inl space ↦ rw space (All-lstrip s h.1)
    | inr other ↦ rw other h
  ]

  All-strip : (s : Text) → All Q s → All Q (strip s)
  unfolding strip rstrip
  All-strip s h = All-reverse _ (All-lstrip _ (All-reverse (lstrip s) (All-lstrip s h)))

abbrev NoBackslash : ℕ → Type 0
NoBackslash c = (c == 92) ≡ false

replace_backslash-NoBackslash : (s : Text) → All NoBackslash (replace_backslash s)
unfolding replace_backslash
replace_backslash-NoBackslash [] = tt
replace_backslash-NoBackslash (c ∷ s) = (ground arith, replace_backslash-NoBackslash s)

-- A part of the path without a slash.
abbrev IsName : Text → Type 0
IsName part = All IsNameChar part

both : (s : Text) → has_slash s ≡ false → All NoBackslash s → IsName s
both [] flat h = tt
both (c ∷ s) flat h = ((ground arith, h.0), both s (ground arith) h.1)

in_front-NoBackslash :
    (c : ℕ) (ps : List Text)
    → NoBackslash c
    → All (λ part. All NoBackslash part) ps
    → All (λ part. All NoBackslash part) (in_front c ps)
in_front-NoBackslash c [] q h = ((q, tt), tt)
in_front-NoBackslash c (p ∷ ps) q h = ((q, h.0), h.1)

split_slash-NoBackslash :
    (s : Text) → All NoBackslash s → All (λ part. All NoBackslash part) (split_slash s)
unfolding split_slash
split_slash-NoBackslash [] h = (tt, tt)
split_slash-NoBackslash (c ∷ cs) h =
    let ih = split_slash-NoBackslash cs h.1 in
    elim (Bool-cases (c == b'/')) [
      | inl slash ↦ rw slash (tt, ih)
      | inr other ↦ rw other (in_front-NoBackslash c (split_slash cs) h.0 ih)
    ]

IsName-parts :
    (ps : List Text)
    → All IsFlat ps
    → All (λ part. All NoBackslash part) ps
    → All IsName (keep_parts ps)
unfolding keep_parts
IsName-parts [] flat h = tt
IsName-parts (p ∷ ps) flat h = elim (Bool-cases (is_kept p)) [
  | inl kept ↦ rw kept (both p flat.0 h.0, IsName-parts ps flat.1 h.1)
  | inr left ↦ rw left (IsName-parts ps flat.1 h.1)
]

IsName-last : (ps : List Text) → All IsName ps → IsName (last_part ps)
IsName-last [] h = tt
IsName-last (p ∷ []) h = h.0
IsName-last (p ∷ q ∷ ps) h = IsName-last (q ∷ ps) h.1

-- Whatever a client sends as a file name, the name that is kept is not empty and has neither a
-- slash nor a backslash.
pub safe_client_filename-IsNameChar :
    (raw : Text)
    → All IsNameChar (safe_client_filename raw) × (is_empty (safe_client_filename raw) ≡ false)
unfolding safe_client_filename path_name path_tail
safe_client_filename-IsNameChar raw =
    let text = replace_backslash raw in
    let named = All-strip IsNameChar _ (
      IsName-last _ (
        IsName-parts (split_slash text) (split_slash-IsFlat text)
          (split_slash-NoBackslash text (replace_backslash-NoBackslash raw)))) in
    elim (Bool-cases (is_empty (strip (path_name text)))) [
      | inl blank ↦ rw blank (ground arith, refl)
      | inr name ↦ rw name (named, name)
    ]
