-- ===== src/Handler/Artifacts.antt =====
-- `_derive_output_prefix` and `_build_artifacts` of worker/src/docrunr_worker/handler.py. `none`
-- stands for a `ValueError`.
pub mod Under
use docrunr.Base.{
  Bool, true, false, ◌||◌, Option, none, some, List, [], ◌∷◌, ◌++◌, Text, codes, text_eq, is_empty,
  if◌then◌else◌, path_parts, path_name, join_parts, stem_of, has_slash,
}

pub record OutputArtifacts : Type 0 where
  pub stem : Text
  pub markdown_path : Text
  pub chunks_path : Text

-- `any(part in ("", ".", "..") for part in parts)`
abbrev pub any_unsafe : List Text → Bool
any_unsafe [] = false
any_unsafe (p ∷ ps) =
    (is_empty p || text_eq p (codes ".") || text_eq p (codes "..")) || any_unsafe ps

-- What `with_name` refuses.
abbrev pub is_bad_name : Text → Bool
is_bad_name name = is_empty name || has_slash name || text_eq name (codes ".")

-- `relative.with_suffix("")`
unfoldable pub without_suffix : List Text → Option (List Text)
unfolding stem_of
without_suffix [] = none
without_suffix (name ∷ []) = if is_bad_name (stem_of name) then none else some (stem_of name ∷ [])
without_suffix (p ∷ q ∷ ps) = elim (without_suffix (q ∷ ps)) [
  | none ↦ none
  | some parts ↦ some (p ∷ parts)
]

-- The prefix of the parts behind `input`.
unfoldable pub output_prefix : List Text → Option Text
unfolding without_suffix join_parts
output_prefix relative =
    if is_empty relative || any_unsafe relative then none else elim (without_suffix relative) [
      | none ↦ none
      | some parts ↦ some (join_parts (codes "output" ∷ parts))
    ]

unfoldable pub prefix_of_parts : List Text → Option Text
unfolding output_prefix
prefix_of_parts [] = none
prefix_of_parts (root ∷ relative) =
    if text_eq root (codes "input") then output_prefix relative else none

unfoldable pub derive_output_prefix : Text → Option Text
unfolding prefix_of_parts path_parts
derive_output_prefix source_path = prefix_of_parts (path_parts source_path)

artifacts_of : Text → OutputArtifacts
unfolding path_name
artifacts_of prefix = record {
  stem = path_name prefix;
  markdown_path = prefix ++ codes ".md";
  chunks_path = prefix ++ codes ".json";
}

unfoldable pub build_artifacts : Text → Option OutputArtifacts
unfolding derive_output_prefix artifacts_of
build_artifacts source_path = elim (derive_output_prefix source_path) [
  | none ↦ none
  | some prefix ↦ some (artifacts_of prefix)
]
