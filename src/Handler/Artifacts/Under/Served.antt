-- ===== src/Handler/Artifacts/Under/Served.antt =====
-- What is written is what the endpoint serves.
use docrunr.Base.{
  ◌+◌, ◌≤◌, ◌≡◌, refl, ap, true, false, ◌||◌, some, List, [], ◌∷◌, ◌++◌, Text, codes, text_eq,
  is_empty, length, length-append, drop, ltb, path_parts, path_name, last_part, relative_parts,
  join_parts, stem_of, rfind_dot, has_slash, All, IsPart, path_parts-behind, Bool-cases,
  Option-cases, inl, inr, arith,
}
use docrunr.Messages.Names.{suffix_of}
use docrunr.Http.Route.{is_allowed_output_path, any_special}
use docrunr.Handler.Artifacts.{
  artifacts_of, OutputArtifacts, any_unsafe, is_bad_name, without_suffix, output_prefix,
  prefix_of_parts, derive_output_prefix, build_artifacts,
}
use docrunr.Handler.Artifacts.Under.{
  IsSafe, only_parts, append_last, without_suffix-IsSafe, join-append_last, parts_under_output,
}

any_special-safe : (ps : List Text) → All IsSafe ps → any_special ps ≡ false
any_special-safe [] h = refl
any_special-safe (p ∷ ps) h = ground (arith, any_special-safe ps h.1)

drop-length : (q s : Text) → drop (length q) (q ++ s) ≡ s
drop-length [] s = refl
drop-length (c ∷ q) s = drop-length q s

module _ (suffix : Text) (long : 3 ≤ length suffix) (dotted : rfind_dot suffix ≡ some 0) where
  rfind_dot-append : (q : Text) → rfind_dot (q ++ suffix) ≡ some (length q)
  unfolding rfind_dot
  rfind_dot-append [] = dotted
  rfind_dot-append (c ∷ q) = rw (rfind_dot-append q, rfind_dot) refl

  suffix_of-append : (q : Text) → is_empty q ≡ false → suffix_of (q ++ suffix) ≡ suffix
  unfolding suffix_of
  suffix_of-append [] h = absurd (cc)
  suffix_of-append (c ∷ q) h =
      let size = length-append (c ∷ q) suffix in
      let some_text : ltb 0 (length (c ∷ q)) ≡ true = ground arith in
      let fits : ltb (length (c ∷ q) + 1) (length ((c ∷ q) ++ suffix)) ≡ true =
        ground (arith, size) in
      rw (rfind_dot-append (c ∷ q), some_text, fits) (drop-length (c ∷ q) suffix)

module _ (suffix : Text) where
  append_last-longer :
      (p stem : Text) (r : List Text)
      → is_empty r ≡ false
      → ((o : Text) → last_part (o ∷ append_last r suffix) ≡ stem ++ suffix)
      → (o : Text) → last_part (o ∷ append_last (p ∷ r) suffix) ≡ stem ++ suffix
  unfolding append_last
  append_last-longer p stem [] more last o = absurd (cc)
  append_last-longer p stem (x ∷ xs) more last o = last p

  -- The last part is a stem with the ending.
  without_suffix-last :
      (ps r : List Text)
      → without_suffix ps ≡ some r
      → (q : Text) × (is_empty q ≡ false)
        × ((p : Text) → last_part (p ∷ append_last r suffix) ≡ q ++ suffix)
        × (is_empty r ≡ false)
  unfolding without_suffix append_last
  without_suffix-last [] r e = absurd (cc e)
  without_suffix-last (p ∷ []) r e = elim (Bool-cases (is_bad_name (stem_of p))) [
    | inl bad ↦ absurd (cc (rw bad at e))
    | inr good ↦
        let same : stem_of p ∷ [] ≡ r = cc (rw good at e) in
        rw (← same) (stem_of p, ground arith, λ o. refl, refl)
  ]
  without_suffix-last (p ∷ q ∷ ps) r e = elim (Option-cases (without_suffix (q ∷ ps))) [
    | inl bad ↦ absurd (cc (rw (bad, without_suffix) at e))
    | inr (r', good) ↦
        let same : p ∷ r' ≡ r = cc (rw (good, without_suffix) at e) in
        let (stem, filled, last, more) = without_suffix-last (q ∷ ps) r' good in
        rw (← same) (stem, filled, append_last-longer p stem r' more last, refl)
  ]

module _ (lower : Text → Text) (suffix : Text) (long : 3 ≤ length suffix)
    (flat : has_slash suffix ≡ false) (dotted : rfind_dot suffix ≡ some 0)
    (low : lower suffix ≡ suffix)
    (known : text_eq suffix (codes ".md") || text_eq suffix (codes ".json") ≡ true) where
  allowed_parts :
      (path q : Text) (below : List Text)
      → path_parts path ≡ codes "output" ∷ below
      → All IsSafe below
      → last_part (codes "output" ∷ below) ≡ q ++ suffix
      → is_empty q ≡ false
      → is_allowed_output_path lower path ≡ true
  unfolding is_allowed_output_path path_name text_eq
  allowed_parts path q below parts safe last filled =
      let (relative, tail) = relative_parts path (codes "output") below parts refl in
      let name : path_name path ≡ q ++ suffix = rw (tail, path_name) last in
      let ending : suffix_of (path_name path) ≡ suffix =
        rw name (suffix_of-append suffix long dotted q filled) in
      rw (relative, ending, low, tail, any_special-safe below safe) known

  joined_allowed :
      (r : List Text) (q : Text)
      → All IsSafe (append_last r suffix)
      → is_empty r ≡ false
      → ((p : Text) → last_part (p ∷ append_last r suffix) ≡ q ++ suffix)
      → is_empty q ≡ false
      → is_allowed_output_path lower (join_parts (codes "output" ∷ r) ++ suffix) ≡ true
  joined_allowed [] q safe more last filled = absurd (cc)
  joined_allowed (p ∷ r) q safe more last filled =
      rw (join-append_last suffix long flat (codes "output") p r) (
        allowed_parts _ q (append_last (p ∷ r) suffix)
          (parts_under_output _ (only_parts (append_last (p ∷ r) suffix) safe)) safe
          (last (codes "output")) filled)

  output_prefix-allowed :
      (relative : List Text) (prefix : Text)
      → All IsPart relative
      → output_prefix relative ≡ some prefix
      → is_allowed_output_path lower (prefix ++ suffix) ≡ true
  unfolding output_prefix
  output_prefix-allowed relative prefix parts e =
      elim (Bool-cases (is_empty relative || any_unsafe relative)) [
        | inl bad ↦ absurd (cc (rw bad at e))
        | inr good ↦ elim (Option-cases (without_suffix relative)) [
          | inl failed ↦ absurd (cc (rw (good, failed) at e))
          | inr (r, built) ↦
              let same : join_parts (codes "output" ∷ r) ≡ prefix = cc (rw (good, built) at e) in
              let safe =
                without_suffix-IsSafe suffix long flat relative r parts (ground arith) built in
              let (q, filled, last, more) = without_suffix-last suffix relative r built in
              rw (← same) (joined_allowed r q safe.0 more last filled)
        ]
      ]

  derived_allowed :
      (parts : List Text) (prefix : Text)
      → All IsPart (drop 1 parts)
      → prefix_of_parts parts ≡ some prefix
      → is_allowed_output_path lower (prefix ++ suffix) ≡ true
  unfolding prefix_of_parts
  derived_allowed [] prefix h e = absurd (cc e)
  derived_allowed (root ∷ relative) prefix h e = elim (Bool-cases (text_eq root (codes "input"))) [
    | inl input ↦ output_prefix-allowed relative prefix h (rw input at e)
    | inr other ↦ absurd (cc (rw other at e))
  ]

-- If the artifacts of a source path are accepted, then the endpoint accepts both of their paths,
-- under a `str.lower` that leaves `.md` and `.json` as they are.
pub build_artifacts-allowed :
    (lower : Text → Text)
    → lower (codes ".md") ≡ codes ".md"
    → lower (codes ".json") ≡ codes ".json"
    → (source_path : Text) (a : OutputArtifacts) → build_artifacts source_path ≡ some a
    → (is_allowed_output_path lower a.markdown_path ≡ true)
      × (is_allowed_output_path lower a.chunks_path ≡ true)
unfolding build_artifacts derive_output_prefix artifacts_of rfind_dot text_eq
build_artifacts-allowed lower md_low json_low source_path a e =
    elim (Option-cases (derive_output_prefix source_path)) [
      | inl bad ↦ absurd (cc (rw (bad, build_artifacts) at e))
      | inr (prefix, good) ↦
          let h = path_parts-behind source_path in
          let parts = path_parts source_path in
          let same : artifacts_of prefix ≡ a = cc (rw (good, build_artifacts) at e) in
          let md : prefix ++ codes ".md" ≡ a.markdown_path = ap (λ x. x.markdown_path) same in
          let js : prefix ++ codes ".json" ≡ a.chunks_path = ap (λ x. x.chunks_path) same in
          (
            rw (← md) (
                derived_allowed lower (codes ".md") (omega arith) refl refl md_low refl parts prefix
                  h good),
            rw (← js) (
                derived_allowed lower (codes ".json") (omega arith) refl refl json_low refl parts
                  prefix h good),
          )
    ]
