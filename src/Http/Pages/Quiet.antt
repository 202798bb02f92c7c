-- ===== src/Http/Pages/Quiet.antt =====
-- No page signs anyone in or out.
use docrunr.Base.{◌≡◌, Bool, true, false, Option, Text, arith}
use docrunr.Http.Request.{
  Read, Ui, Response, logged_in, logged_out, jobs_json, artifact_bytes, uploaded,
}
use docrunr.Http.Pages.{
  artifact_read, artifact_response, ui_or_404, ui_response, ui_located, ui_fallback,
  static_file_response,
}

abbrev pub is_quiet : Response → Bool
is_quiet (logged_in u) = false
is_quiet logged_out = false
is_quiet _ = true

module _ (lower : Text → Text) where
  pub artifact_response-quiet :
      (path : Option Text) (storage : Option Read)
      → is_quiet (artifact_response lower path storage) ≡ true
  unfolding artifact_response artifact_read
  artifact_response-quiet path storage = ground arith

pub ui_or_404-quiet : (path : Text) (ui : Ui) → is_quiet (ui_or_404 path ui) ≡ true
unfolding ui_or_404 ui_response ui_located ui_fallback static_file_response
ui_or_404-quiet path ui = ground arith

-- Jobs, the bytes of an artifact, or an upload that was taken.
abbrev pub discloses : Response → Bool
discloses (jobs_json limit status search) = true
discloses (artifact_bytes path content_type) = true
discloses (uploaded priority llm_profile) = true
discloses _ = false

pub ui_or_404-closed : (path : Text) (ui : Ui) → discloses (ui_or_404 path ui) ≡ false
unfolding ui_or_404 ui_response ui_located ui_fallback static_file_response
ui_or_404-closed path ui = ground arith
