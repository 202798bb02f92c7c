-- ===== src/Chunk/Boundary.antt =====
-- `_split_on_section_boundaries` of core/src/docrunr/chunk.py.
use docrunr.Base.{
  ℕ, suc, ◌+◌, ◌≤◌, ◌<◌, ◌≡◌, refl, ◌&&◌, List, [], ◌∷◌, ◌++◌, arith, Text, length, drop, drop_all,
  slice, ltb, leb, ◌==◌, if◌then◌else◌, is_empty, Bool-cases, inl, inr, false,
}
use docrunr.Chunk.Span.{Span, Covers, Covers-nil, Covers-slice}
use docrunr.Chunk.Section.{SectionPathState}

-- `sorted(set(numbers))`, by insertion.
insert_unique : ℕ → List ℕ → List ℕ
insert_unique n [] = n ∷ []
insert_unique n (m ∷ ms) =
    let rest = insert_unique n ms in
    if ltb n m then n ∷ m ∷ ms else if n == m then m ∷ ms else m ∷ rest

pub sorted_set : List ℕ → List ℕ
unfolding insert_unique
sorted_set [] = []
sorted_set (n ∷ ns) = insert_unique n (sorted_set ns)

-- `state.offset for state in states if 0 < state.offset < len(markdown)`
pub inner_offsets : ℕ → List SectionPathState → List ℕ
inner_offsets size [] = []
inner_offsets size (s ∷ ss) =
    let rest = inner_offsets size ss in
    if ltb 0 s.offset && ltb s.offset size then s.offset ∷ rest else rest

-- The loop over the pairs of neighbours.
pub cut_at : Text → List ℕ → List Span
cut_at markdown [] = []
cut_at markdown (a ∷ []) = []
cut_at markdown (a ∷ b ∷ rest) =
    let spans = cut_at markdown (b ∷ rest) in
    if leb b a then spans else record { text = slice markdown a b; start = a; end = b } ∷ spans

unfoldable pub split_on_section_boundaries : Text → List SectionPathState → List Span
unfolding sorted_set inner_offsets cut_at
split_on_section_boundaries markdown states =
    if is_empty markdown
    then []
    else cut_at markdown
        (sorted_set (0 ∷ inner_offsets (length markdown) states ++ length markdown ∷ []))

-- Strictly ascending numbers, from `lo` on, that end with `n`.
abbrev ClimbsTo : ℕ → ℕ → List ℕ → Type 0
ClimbsTo n lo [] = lo ≡ suc n
ClimbsTo n lo (x ∷ xs) = (lo ≤ x) × ClimbsTo n (suc x) xs

ClimbsTo-le : (n lo : ℕ) (xs : List ℕ) → ClimbsTo n lo xs → lo ≤ suc n
ClimbsTo-le n lo [] h = omega arith
ClimbsTo-le n lo (x ∷ xs) h = omega (arith, ClimbsTo-le n (suc x) xs h.1)

ClimbsTo-insert :
    (n lo m : ℕ) (xs : List ℕ)
    → lo ≤ m
    → m < n
    → ClimbsTo n lo xs
    → ClimbsTo n lo (insert_unique m xs)
unfolding insert_unique
ClimbsTo-insert n lo m [] a b h = absurd (omega arith)
ClimbsTo-insert n lo m (x ∷ xs) a b h = ground (arith, ClimbsTo-insert n (suc x) m xs)

-- The inner offsets and the end of the text, sorted, climb to the end.
inner-ClimbsTo :
    (n : ℕ) (states : List SectionPathState)
    → 0 < n
    → ClimbsTo n 1 (sorted_set (inner_offsets n states ++ n ∷ []))
unfolding sorted_set inner_offsets
inner-ClimbsTo n [] pos = (pos, refl)
inner-ClimbsTo n (s ∷ ss) pos =
    let rest = inner-ClimbsTo n ss pos in
    elim (Bool-cases (ltb 0 s.offset && ltb s.offset n)) [
      | inl inside ↦
          rw (inside, inner_offsets)
            (ClimbsTo-insert n 1 s.offset (sorted_set (inner_offsets n ss ++ n ∷ [])) (ground arith)
              (ground arith) rest)
      | inr outside ↦ rw (outside, inner_offsets) rest
    ]

insert_zero : (n : ℕ) (xs : List ℕ) → ClimbsTo n 1 xs → insert_unique 0 xs ≡ 0 ∷ xs
unfolding insert_unique
insert_zero n [] h = refl
insert_zero n (x ∷ xs) h = ground arith

cut_at-Covers :
    (markdown : Text) (a : ℕ) (xs : List ℕ)
    → ClimbsTo (length markdown) (suc a) xs
    → Covers (drop a markdown) a (cut_at markdown (a ∷ xs))
unfolding cut_at
cut_at-Covers markdown a [] h = rw (drop_all a markdown (omega arith)) (Covers-nil a)
cut_at-Covers markdown a (b ∷ xs) h =
    let climbs = ClimbsTo-le (length markdown) (suc b) xs h.1 in
    let ascending : leb b a ≡ false = ground arith in
    let front : (n : ℕ) → 0 + n ≡ n = λ n. omega arith in
    rw ascending (
      rw (front a, front b) at
        (Covers-slice a b markdown 0 (cut_at markdown (b ∷ xs)) (omega arith) (omega arith)
          (rw (front b) (cut_at-Covers markdown b xs h.1))))

-- The seed spans tile the document, whatever the section states are.
pub split_on_section_boundaries-Covers :
    (markdown : Text) (states : List SectionPathState)
    → Covers markdown 0 (split_on_section_boundaries markdown states)
unfolding split_on_section_boundaries
split_on_section_boundaries-Covers [] states = Covers-nil 0
split_on_section_boundaries-Covers (c ∷ markdown) states =
    let climbs = inner-ClimbsTo (length (c ∷ markdown)) states (omega arith) in
    rw (insert_zero (length (c ∷ markdown)) _ climbs) (cut_at-Covers (c ∷ markdown) 0 _ climbs)
