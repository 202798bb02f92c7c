-- ===== src/Http/Pages.antt =====
-- The answers of worker/src/docrunr_worker/health.py that keep no state: the parameters of
-- `/api/jobs`, `_artifact_response` and `_ui_response`.
pub mod Quiet
use docrunr.Base.{
  ℕ, zero, suc, Bool, true, false, not, ◌&&◌, ◌||◌, Option, none, some, List, [], ◌∷◌, Text, codes,
  text_eq, strip, is_empty, ltb, ◌==◌, if◌then◌else◌, ℤ, pos, negsuc, parse_int, path_parts,
  path_name,
}
use docrunr.Http.Route.{first_is, is_allowed_output_path, artifact_content_type}
use docrunr.Http.Request.{
  Read, not_found, failed, found, Served, no_file, unreadable, served, Located, unresolvable,
  outside, inside, Ui, Response, artifact_bytes, ui_bytes, send_error, aborted,
}

abbrev pub default_limit : ℤ
default_limit = pos 100

abbrev pub positive_or_default : ℤ → ℤ
positive_or_default (pos zero) = default_limit
positive_or_default (pos (suc n)) = pos (suc n)
positive_or_default (negsuc n) = default_limit

abbrev pub limit_of : Option ℤ → ℤ
limit_of none = default_limit
limit_of (some n) = positive_or_default n

abbrev pub jobs_limit : Option Text → ℤ
jobs_limit none = default_limit
jobs_limit (some text) = limit_of (parse_int text)

abbrev pub strip_optional : Option Text → Option Text
strip_optional none = none
strip_optional (some text) = some (strip text)

abbrev pub strip_or_empty : Option Text → Text
strip_or_empty none = []
strip_or_empty (some text) = strip text

module _ (lower : Text → Text) where
  artifact_read : Text → Option Read → Response
  unfolding artifact_content_type
  artifact_read path none = send_error 503 (codes "Artifact storage unavailable")
  artifact_read path (some not_found) = send_error 404 (codes "Artifact not found")
  artifact_read path (some failed) = send_error 500 (codes "Artifact read failed")
  artifact_read path (some found) = artifact_bytes path (artifact_content_type lower path)

  unfoldable pub artifact_response : Option Text → Option Read → Response
  unfolding artifact_read is_allowed_output_path strip
  artifact_response none storage = send_error 400 (codes "Missing path")
  artifact_response (some requested) storage =
      if not (is_allowed_output_path lower (strip requested))
      then send_error 400 (codes "Invalid output path")
      else artifact_read (strip requested) storage

-- The response, or `none` for `False`.
static_file_response : Served → Option Response
static_file_response no_file = none
static_file_response unreadable = some (send_error 500 [])
static_file_response served = some ui_bytes

lstrip_slash : Text → Text
lstrip_slash [] = []
lstrip_slash (c ∷ cs) = let rest = lstrip_slash cs in if c == b'/' then rest else c ∷ cs

abbrev has_dot : Text → Bool
has_dot [] = false
has_dot (c ∷ cs) = (c == b'.') || has_dot cs

-- The fallback to the index for paths that are no file.
ui_fallback : Text → Served → Option Response
unfolding static_file_response path_parts path_name text_eq
ui_fallback rel_path index =
    if first_is (path_parts rel_path) (codes "api")
      || first_is (path_parts rel_path) (codes "assets")
      || first_is (path_parts rel_path) (codes "health")
      || first_is (path_parts rel_path) (codes "stats")
    then none
    else if has_dot (path_name rel_path)
    then none
    else static_file_response index

ui_located : Text → Served → Located → Option Response
unfolding ui_fallback lstrip_slash
ui_located path index unresolvable = some aborted
ui_located path index outside = none
ui_located path index (inside no_file) = ui_fallback (lstrip_slash path) index
ui_located path index (inside unreadable) = some (send_error 500 [])
ui_located path index (inside served) = some ui_bytes

ui_response : Text → Ui → Option Response
unfolding ui_located static_file_response text_eq
ui_response path ui =
    if not ui.has_dist
    then (if text_eq path (codes "/")
        then some (send_error 503 (codes "UI assets not found"))
        else none)
    else if text_eq path (codes "/")
    then static_file_response ui.index
    else ui_located path ui.index ui.located

-- `send_error(404)` where the user interface has nothing
unfoldable pub ui_or_404 : Text → Ui → Response
unfolding ui_response
ui_or_404 path ui = elim (ui_response path ui) [ some r ↦ r | none ↦ send_error 404 [] ]
