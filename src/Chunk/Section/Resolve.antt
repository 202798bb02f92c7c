-- ===== src/Chunk/Section/Resolve.antt =====
-- The binary search of `path_for` finds the heading that governs an offset.
use docrunr.Base.{
  ℕ, zero, suc, ◌+◌, ◌-◌, ◌<◌, ◌≡◌, refl, List, [], ◌∷◌, arith, Text, leb, ◌==◌, if◌then◌else◌,
  Bool-cases, inl, inr,
}
use docrunr.Chunk.Section.{SectionPathState, positions, bisect_right, path_at, path_for}
use docrunr.Chunk.Section.Order.{Ascending}

-- The path of the last heading at or before `offset`, by a walk over all of them.
abbrev pub last_path : List Text → List SectionPathState → ℕ → List Text
last_path path [] offset = path
last_path path (s ∷ ss) offset = last_path (if leb s.offset offset then s.path else path) ss offset

last_path-before :
    (path : List Text) (lo hi : ℕ) (ss : List SectionPathState) (offset : ℕ)
    → Ascending lo ss hi
    → offset < lo
    → last_path path ss offset ≡ path
last_path-before path lo hi [] offset h lt = refl
last_path-before path lo hi (s ∷ ss) offset h lt = elim (Bool-cases (leb s.offset offset)) [
  | inl reached ↦ absurd (ground arith)
  | inr e ↦ rw e (last_path-before path (s.offset + 1) hi ss offset h.2 (omega arith))
]

path_at-count :
    (s : SectionPathState) (ss : List SectionPathState) (n : ℕ)
    → path_at (s ∷ ss) n ≡ (if n == 0 then s.path else path_at ss (n - 1))
unfolding path_at
path_at-count s ss zero = refl
path_at-count s ss (suc n) = ground arith

path_for-from :
    (path : List Text) (lo hi : ℕ) (ss : List SectionPathState) (offset : ℕ)
    → Ascending lo ss hi
    → last_path path ss offset ≡ (
        if bisect_right (positions ss) offset == 0
        then path
        else path_at ss (bisect_right (positions ss) offset - 1))
unfolding bisect_right
path_for-from path lo hi [] offset h = refl
path_for-from path lo hi (s ∷ ss) offset h = elim (Bool-cases (leb s.offset offset)) [
  | inl reached ↦ rw reached (
      ground (
        arith,
        path_for-from s.path (s.offset + 1) hi ss offset h.2,
        path_at-count s ss (bisect_right (positions ss) offset),
      ))
  | inr e ↦ rw e (last_path-before path (s.offset + 1) hi ss offset h.2 (ground arith))
]

-- For headings whose offsets ascend, the binary search of `path_for` gives the path of the last
-- heading at or before the offset, as a walk over all headings finds it, and the empty path where
-- there is none.
pub path_for-eq-last_path :
    (lo hi : ℕ) (states : List SectionPathState) (offset : ℕ)
    → Ascending lo states hi
    → path_for states offset ≡ last_path [] states offset
unfolding path_for
path_for-eq-last_path lo hi states offset h = ground (arith, path_for-from [] lo hi states offset h)
