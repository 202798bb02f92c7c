-- ===== src/Normalize.antt =====
-- core/src/docrunr/_text.py, and `_normalize_chunk_text` of core/src/docrunr/chunk.py.
use docrunr.Base.{
  ◌≡◌, refl, Bool, false, ◌&&◌, [], ◌∷◌, arith, Text, ◌==◌, if◌then◌else◌, is_space, strip,
  starts_with,
}

-- `re.sub(r"\s+", " ", text)`; the flag says that the code point before was white space.
collapse_from : Bool → Text → Text
collapse_from before [] = []
collapse_from before (c ∷ s) =
    let rest = collapse_from (is_space c) s in
    if is_space c then (if before then rest else b' ' ∷ rest) else c ∷ rest

unfoldable pub normalize_for_comparison : Text → Text
unfolding collapse_from is_space strip
normalize_for_comparison text = strip (collapse_from false text)

-- `text.replace("\r\n", "\n")`
replace_crlf : Text → Text
unfolding starts_with
replace_crlf [] = []
replace_crlf (c ∷ s) =
    let rest = replace_crlf s in if (c == 13) && starts_with s (10 ∷ []) then rest else c ∷ rest

-- `text.replace("\r", "\n")`
replace_cr : Text → Text
replace_cr [] = []
replace_cr (c ∷ s) = (if c == 13 then 10 else c) ∷ replace_cr s

unfoldable pub normalize_chunk_text : Text → Text
unfolding replace_crlf replace_cr
normalize_chunk_text text = replace_cr (replace_crlf text)

-- No carriage return is left.
abbrev pub NoReturn : Text → Type 0
NoReturn [] = Unit
NoReturn (c ∷ s) = ((c == 13) ≡ false) × NoReturn s

replace_cr-NoReturn : (s : Text) → NoReturn (replace_cr s)
unfolding replace_cr
replace_cr-NoReturn [] = tt
replace_cr-NoReturn (c ∷ s) = (ground arith, replace_cr-NoReturn s)

pub normalize_chunk_text-NoReturn : (s : Text) → NoReturn (normalize_chunk_text s)
unfolding normalize_chunk_text
normalize_chunk_text-NoReturn s = replace_cr-NoReturn (replace_crlf s)

-- A text with no carriage return is kept as it is.
replace_crlf_none : (s : Text) → NoReturn s → replace_crlf s ≡ s
unfolding replace_crlf
replace_crlf_none [] h = refl
replace_crlf_none (c ∷ s) h = rw h.0 (ground (arith, replace_crlf_none s h.1))

replace_cr_none : (s : Text) → NoReturn s → replace_cr s ≡ s
unfolding replace_cr
replace_cr_none [] h = refl
replace_cr_none (c ∷ s) h = ground (arith, replace_cr_none s h.1)

pub normalize_chunk_text_none : (s : Text) → NoReturn s → normalize_chunk_text s ≡ s
unfolding normalize_chunk_text
normalize_chunk_text_none s h = rw replace_crlf_none (replace_cr_none s h)
