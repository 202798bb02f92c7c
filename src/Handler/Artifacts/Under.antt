-- ===== src/Handler/Artifacts/Under.antt =====
-- What is written lands below `output`.
pub mod Served
use docrunr.Base.{
  ℕ, ◌+◌, ◌≤◌, ◌≡◌, refl, false, ◌||◌, some, List, [], ◌∷◌, ◌++◌, Text, codes, text_eq, is_empty,
  length, length-append, path_parts, join_parts, stem_of, has_slash, has_slash-append,
  text_ne-length, path_tail-join, IsPart, starts_with, path_parts-behind, drop, is_empty→nil, All,
  arith, Bool-cases, Option-cases, inl, inr, ap, ◌∙◌, append_assoc,
}
use docrunr.Handler.Artifacts.{
  artifacts_of, OutputArtifacts, any_unsafe, is_bad_name, without_suffix, output_prefix,
  prefix_of_parts, derive_output_prefix, build_artifacts,
}

-- A path below `output`: each step goes down.
abbrev pub GoesDown : Text → Type 0
GoesDown part = text_eq part (codes "..") ≡ false

pub record IsUnderOutput (path : Text) : Type 0 where
  pub below : List Text
  pub parts : path_parts path ≡ codes "output" ∷ below
  pub is_below : is_empty below ≡ false
  pub goes_down : All GoesDown below

abbrev IsSafe : Text → Type 0
IsSafe part = IsPart part × GoesDown part

only_parts : (ps : List Text) → All IsSafe ps → All IsPart ps
only_parts [] h = tt
only_parts (p ∷ ps) h = (h.0.0, only_parts ps h.1)

only_down : (ps : List Text) → All IsSafe ps → All GoesDown ps
only_down [] h = tt
only_down (p ∷ ps) h = (h.0.1, only_down ps h.1)

parts_under_output :
    (ps : List Text)
    → All IsPart ps
    → path_parts (join_parts (codes "output" ∷ ps)) ≡ codes "output" ∷ ps
unfolding path_parts join_parts starts_with text_eq
parts_under_output [] h = path_tail-join (codes "output" ∷ []) ((refl, refl), h)
parts_under_output (p ∷ ps) h = path_tail-join (codes "output" ∷ p ∷ ps) ((refl, refl), h)

-- A file's ending on the last part.
append_last : List Text → Text → List Text
append_last [] suffix = []
append_last (p ∷ []) suffix = (p ++ suffix) ∷ []
append_last (p ∷ q ∷ ps) suffix = p ∷ append_last (q ∷ ps) suffix

module _ (suffix : Text) (long : 3 ≤ length suffix) (flat : has_slash suffix ≡ false) where
  IsSafe-append : (p : Text) → has_slash p ≡ false → IsSafe (p ++ suffix)
  IsSafe-append p h =
      let big : length (p ++ suffix) ≡ length p + length suffix = length-append p suffix in
      let filled : is_empty (p ++ suffix) ≡ false = elim (Bool-cases (is_empty (p ++ suffix))) [
        | inr some_text ↦ some_text
        | inl blank ↦
            let short : length (p ++ suffix) ≡ 0 =
              ap (length {A = ℕ}) (is_empty→nil (p ++ suffix) blank) in
            absurd (omega arith)
      ] in
      let no_dot : text_eq (p ++ suffix) (codes ".") ≡ false =
        text_ne-length (p ++ suffix) (codes ".") (λ e. omega arith) in
      let no_dots : text_eq (p ++ suffix) (codes "..") ≡ false =
        text_ne-length (p ++ suffix) (codes "..") (λ e. omega arith) in
      ((has_slash-append p suffix ∙ rw (h, flat) refl, rw (filled, no_dot) refl), no_dots)

  append_last-cons :
      (p : Text) (r : List Text)
      → is_empty (append_last r suffix) ≡ false
      → append_last (p ∷ r) suffix ≡ p ∷ append_last r suffix
  unfolding append_last
  append_last-cons p [] h = absurd (cc h)
  append_last-cons p (q ∷ r) h = refl

  without_suffix-IsSafe :
      (ps r : List Text)
      → All IsPart ps
      → any_unsafe ps ≡ false
      → without_suffix ps ≡ some r
      → All IsSafe (append_last r suffix) × (is_empty (append_last r suffix) ≡ false)
  unfolding without_suffix append_last
  without_suffix-IsSafe [] r parts safe e = absurd (cc e)
  without_suffix-IsSafe (p ∷ []) r parts safe e = elim (Bool-cases (is_bad_name (stem_of p))) [
    | inl bad ↦ absurd (cc (rw bad at e))
    | inr good ↦
        let same : stem_of p ∷ [] ≡ r = cc (rw good at e) in
        rw (← same) ((IsSafe-append (stem_of p) (ground arith), tt), refl)
  ]
  without_suffix-IsSafe (p ∷ q ∷ ps) r parts safe e =
      elim (Option-cases (without_suffix (q ∷ ps))) [
        | inl bad ↦ absurd (cc (rw (bad, without_suffix) at e))
        | inr (r', good) ↦
            let same : p ∷ r' ≡ r = cc (rw (good, without_suffix) at e) in
            let ih = without_suffix-IsSafe (q ∷ ps) r' parts.1 (ground arith) good in
            let grown = append_last-cons p r' ih.1 in
            let safe_p : IsSafe p = (parts.0, ground arith) in
            rw (← same, grown) ((safe_p, ih.0), refl)
      ]

  join-append_last :
      (p q : Text) (ps : List Text)
      → join_parts (p ∷ q ∷ ps) ++ suffix ≡ join_parts (p ∷ append_last (q ∷ ps) suffix)
  unfolding append_last join_parts
  join-append_last p q [] = append_assoc p (b'/' ∷ q) suffix
  join-append_last p q (q' ∷ ps) =
      append_assoc p (b'/' ∷ join_parts (q ∷ q' ∷ ps)) suffix
      ∙ ap (λ t. p ++ b'/' ∷ t) (join-append_last q q' ps)

  joined-IsUnderOutput :
      (r : List Text)
      → All IsSafe (append_last r suffix)
      → is_empty (append_last r suffix) ≡ false
      → IsUnderOutput (join_parts (codes "output" ∷ r) ++ suffix)
  unfolding append_last
  joined-IsUnderOutput [] safe filled = absurd (cc filled)
  joined-IsUnderOutput (q ∷ r) safe filled = rw (join-append_last (codes "output") q r) (record {
    below = append_last (q ∷ r) suffix;
    parts = parts_under_output _ (only_parts (append_last (q ∷ r) suffix) safe);
    is_below = filled;
    goes_down = only_down (append_last (q ∷ r) suffix) safe;
  })

  -- An accepted prefix with the ending is a path below `output`.
  output_prefix-IsUnderOutput :
      (relative : List Text) (prefix : Text)
      → All IsPart relative
      → output_prefix relative ≡ some prefix
      → IsUnderOutput (prefix ++ suffix)
  unfolding output_prefix
  output_prefix-IsUnderOutput relative prefix parts e =
      elim (Bool-cases (is_empty relative || any_unsafe relative)) [
        | inl bad ↦ absurd (cc (rw bad at e))
        | inr good ↦ elim (Option-cases (without_suffix relative)) [
          | inl failed ↦ absurd (cc (rw (good, failed) at e))
          | inr (r, built) ↦
              let same : join_parts (codes "output" ∷ r) ≡ prefix = cc (rw (good, built) at e) in
              let safe = without_suffix-IsSafe relative r parts (ground arith) built in
              rw (← same) (joined-IsUnderOutput r safe.0 safe.1)
        ]
      ]

  prefix_of_parts-IsUnderOutput :
      (parts : List Text) (prefix : Text)
      → All IsPart (drop 1 parts)
      → prefix_of_parts parts ≡ some prefix
      → IsUnderOutput (prefix ++ suffix)
  unfolding prefix_of_parts
  prefix_of_parts-IsUnderOutput [] prefix h e = absurd (cc e)
  prefix_of_parts-IsUnderOutput (root ∷ relative) prefix h e =
      elim (Bool-cases (text_eq root (codes "input"))) [
        | inl input ↦ output_prefix-IsUnderOutput relative prefix h (rw input at e)
        | inr other ↦ absurd (cc (rw other at e))
      ]

-- If the artifacts of a source path are accepted, then both files that are written lie below
-- `output`, with no step up on the way, whatever the source path is.
build_artifacts-IsUnderOutput :
    (source_path : Text) (a : OutputArtifacts)
    → build_artifacts source_path ≡ some a
    → IsUnderOutput a.markdown_path × IsUnderOutput a.chunks_path
unfolding build_artifacts derive_output_prefix artifacts_of
build_artifacts-IsUnderOutput source_path a e =
    elim (Option-cases (derive_output_prefix source_path)) [
      | inl bad ↦ absurd (cc (rw (bad, build_artifacts) at e))
      | inr (prefix, good) ↦
          let h = path_parts-behind source_path in
          let parts = path_parts source_path in
          let e' = rw (good, build_artifacts) at e in
          let same : artifacts_of prefix ≡ a = cc e' in
          let md : prefix ++ codes ".md" ≡ a.markdown_path = ap (λ x. x.markdown_path) same in
          let js : prefix ++ codes ".json" ≡ a.chunks_path = ap (λ x. x.chunks_path) same in
          (
            rw (← md) (
                prefix_of_parts-IsUnderOutput (codes ".md") (omega arith) refl parts prefix h good),
            rw (← js) (
                prefix_of_parts-IsUnderOutput (codes ".json") (omega arith) refl parts prefix h
                  good),
          )
    ]
