-- ===== src/Http/Route.antt =====
-- Which requests want a session: `_route_group_matches` and `_path_requires_auth` of
-- worker/src/docrunr_worker/health.py; and the paths of artifacts that are served.
pub mod Allowed
use docrunr.Base.{
  Bool, true, false, not, ◌&&◌, ◌||◌, List, [], ◌∷◌, Text, codes, text_eq, starts_with, is_empty,
  if◌then◌else◌, path_parts, path_tail, path_name,
}
use docrunr.Messages.Names.{suffix_of}

pub data Method : Type 0 where
  get post : Method

abbrev pub is_post : Method → Bool
is_post get = false
is_post post = true

pub data Group : Type 0 where
  jobs artifacts uploads : Group

unfoldable pub route_group_matches : Method → Text → Group → Bool
unfolding text_eq starts_with
route_group_matches method path jobs = starts_with path (codes "/api/jobs")
route_group_matches method path artifacts = starts_with path (codes "/api/artifact")
route_group_matches method path uploads = text_eq path (codes "/api/uploads") && is_post method

unfoldable pub path_requires_auth : Bool → Method → Text → Bool
unfolding route_group_matches text_eq starts_with
path_requires_auth enabled method path =
    if not enabled
    then false
    else if text_eq path (codes "/health")
        || text_eq path (codes "/stats")
        || text_eq path (codes "/api/overview")
    then false
    else if starts_with path (codes "/api/auth/")
    then false
    else if not (starts_with path (codes "/api/"))
    then false
    else route_group_matches method path jobs
      || route_group_matches method path artifacts
      || route_group_matches method path uploads

abbrev pub first_is : List Text → Text → Bool
first_is [] name = false
first_is (p ∷ ps) name = text_eq p name

-- `any(part in {"", ".", ".."} for part in parts)`
abbrev pub any_special : List Text → Bool
any_special [] = false
any_special (p ∷ ps) =
    (is_empty p || text_eq p (codes ".") || text_eq p (codes "..")) || any_special ps

module _ (lower : Text → Text) where
  abbrev pub path_suffix : Text → Text
  path_suffix path = lower (suffix_of (path_name path))

  unfoldable pub is_allowed_output_path : Text → Bool
  unfolding path_parts path_name starts_with text_eq suffix_of
  is_allowed_output_path path =
      if starts_with path (codes "/")
      then false
      else if not (first_is (path_parts path) (codes "output"))
      then false
      else if any_special (path_parts path)
      then false
      else text_eq (path_suffix path) (codes ".md") || text_eq (path_suffix path) (codes ".json")

  unfoldable pub artifact_content_type : Text → Text
  unfolding path_name text_eq suffix_of
  artifact_content_type path =
      if text_eq (path_suffix path) (codes ".json")
      then codes "application/json; charset=utf-8"
      else codes "text/markdown; charset=utf-8"
