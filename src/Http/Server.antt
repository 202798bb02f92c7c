-- ===== src/Http/Server.antt =====
-- The requests of worker/src/docrunr_worker/health.py: `do_GET`, `do_POST`, and signing in and out.
pub mod Effects
pub mod Guarded
pub mod Login
use docrunr.Base.{
  ℕ, Bool, true, false, not, ◌&&◌, ◌||◌, Option, none, some, List, [], ◌∷◌, Text, codes, text_eq,
  strip, is_empty, ltb, ◌==◌, if◌then◌else◌, ℤ, pos, negsuc,
}
use docrunr.JobStore.Event.{Value, str_value}
use docrunr.Messages.Priority.{parse_upload_priority_query}
use docrunr.Http.Session.{
  Sessions, session_cookie_name, parse_cookie_value, session_valid, session_revoke, session_create,
}
use docrunr.Http.Route.{Method, get, post, path_requires_auth}
use docrunr.Http.Request.{
  Target, Upload, refused, crashed, accepted, Request, Response, health_json, stats_json,
  overview_json, jobs_json, artifact_bytes, uploaded, session_json, logged_in, logged_out,
  error_json, send_error, aborted, Decoded, bad_json, raises, not_object, password, read_length,
  is_positive, is_login_length,
}
use docrunr.Http.Pages.{jobs_limit, strip_optional, strip_or_empty, artifact_response, ui_or_404}

-- `_request_session_token`
abbrev pub request_session_token : Request → Option Text
request_session_token r = parse_cookie_value r.cookie session_cookie_name

module _ (lower : Text → Text) where
  pub get_route : Target → Request → Response
  unfolding artifact_response ui_or_404 text_eq strip
  get_route t r =
      if text_eq t.path (codes "/health")
      then health_json
      else if text_eq t.path (codes "/stats")
      then stats_json
      else if text_eq t.path (codes "/api/overview")
      then overview_json
      else if text_eq t.path (codes "/api/jobs")
      then jobs_json (jobs_limit t.limit) t.status (strip_optional t.search)
      else if text_eq t.path (codes "/api/artifact")
      then artifact_response lower t.artifact_path r.storage
      else ui_or_404 t.path r.ui

upload_result : ℕ → Text → Upload → Response
upload_result priority llm_profile (refused message) = error_json 400 message
upload_result priority llm_profile crashed = send_error 500 (codes "Upload failed")
upload_result priority llm_profile accepted = uploaded priority llm_profile

-- The text of an `InvalidJobPriorityError` is not modelled further.
upload_priority : Target → Upload → Option ℕ → Response
unfolding upload_result strip
upload_priority t upload none = error_json 400 (codes "invalid priority")
upload_priority t upload (some priority) =
    upload_result priority (strip_or_empty t.llm_profile) upload

upload_body : Target → Upload → Option (List ℕ) → Response
unfolding upload_priority parse_upload_priority_query
upload_body t upload none = send_error 400 (codes "Read failed")
upload_body t upload (some bytes) =
    upload_priority t upload (parse_upload_priority_query t.priority)

upload_length : Target → Upload → Option (List ℕ) → Option ℤ → Response
unfolding upload_body
upload_length t upload body none = send_error 400 (codes "Invalid Content-Length")
upload_length t upload body (some length) =
    if not (is_positive length)
    then error_json 400 (codes "Request body required")
    else upload_body t upload body

upload_route : Target → Request → Option Upload → Response
unfolding upload_length
upload_route t r none = send_error 503 (codes "Upload unavailable")
upload_route t r (some upload) = upload_length t upload r.body (read_length r.content_length)

-- `do_POST` behind the check of the session
pub post_route : Target → Request → Response
unfolding upload_route text_eq
post_route t r =
    if not (text_eq t.path (codes "/api/uploads"))
    then send_error 404 []
    else upload_route t r r.upload

-- `digest` is SHA-256 of the text in UTF-8; `none` stands for a text that UTF-8 cannot encode.
module _ {F : Type 0} (lower : Text → Text) (decode : List ℕ → Decoded F)
    (digest : Text → Option Text) (ui_password : Text) where
  abbrev pub ui_auth_enabled : Bool
  ui_auth_enabled = not (is_empty ui_password)

  -- `_password_matches`
  abbrev pub both_digests : Option Text → Option Text → Option Bool
  both_digests none received = none
  both_digests (some expected) none = none
  both_digests (some expected) (some received) = some (text_eq expected received)

  request_has_valid_session : Request → Sessions → Bool × Sessions
  unfolding session_valid
  request_has_valid_session r sessions =
      if not ui_auth_enabled
      then (true, sessions)
      else session_valid (request_session_token r) r.now sessions

  -- Shows `response` if the path is free or the session is valid.
  guarded : Method → Text → Response → Request → Sessions → Response × Sessions
  unfolding request_has_valid_session path_requires_auth
  guarded method path response r sessions =
      if path_requires_auth ui_auth_enabled method path
      then (
        if (request_has_valid_session r sessions).0
            then response
            else error_json 401 (codes "unauthorized"),
        (request_has_valid_session r sessions).1,
      )
      else (response, sessions)

  auth_session_json : Request → Sessions → Response × Sessions
  unfolding request_has_valid_session
  auth_session_json r sessions =
      if not ui_auth_enabled then (session_json false true, sessions) else (
        session_json true (request_has_valid_session r sessions).0,
        (request_has_valid_session r sessions).1,
      )

  login_checked : Request → Sessions → Option Bool → Response × Sessions
  unfolding session_revoke session_create
  login_checked r sessions none = (aborted, sessions)
  login_checked r sessions (some false) = (error_json 401 (codes "invalid_password"), sessions)
  login_checked r sessions (some true) = (
    logged_in r.fresh,
    session_create r.fresh r.now (session_revoke (request_session_token r) sessions),
  )

  login_password : Request → Sessions → Value F → Response × Sessions
  unfolding login_checked text_eq
  login_password r sessions (str_value received) =
      login_checked r sessions (both_digests (digest ui_password) (digest received))
  login_password r sessions _ = (error_json 400 (codes "password_required"), sessions)

  login_decoded : Request → Sessions → Decoded F → Response × Sessions
  unfolding login_password
  login_decoded r sessions bad_json = (error_json 400 (codes "invalid_json"), sessions)
  login_decoded r sessions raises = (aborted, sessions)
  login_decoded r sessions not_object = (error_json 400 (codes "invalid_json"), sessions)
  login_decoded r sessions (password value) = login_password r sessions value

  login_body : Request → Sessions → Option (List ℕ) → Response × Sessions
  unfolding login_decoded
  login_body r sessions none = (error_json 400 (codes "invalid_json"), sessions)
  login_body r sessions (some raw) = login_decoded r sessions (decode raw)

  login_length : Request → Sessions → Option ℤ → Response × Sessions
  unfolding login_body
  login_length r sessions none = (error_json 400 (codes "invalid_content_length"), sessions)
  login_length r sessions (some length) =
      if not (is_login_length length)
      then (error_json 400 (codes "invalid_body"), sessions)
      else login_body r sessions r.body

  auth_login : Request → Sessions → Response × Sessions
  unfolding login_length
  auth_login r sessions =
      if not ui_auth_enabled
      then (error_json 400 (codes "auth_disabled"), sessions)
      else login_length r sessions (read_length r.content_length)

  auth_logout : Request → Sessions → Response × Sessions
  unfolding session_revoke
  auth_logout r sessions = (logged_out, session_revoke (request_session_token r) sessions)

  do_get : Target → Request → Sessions → Response × Sessions
  unfolding auth_session_json guarded get_route text_eq
  do_get t r sessions =
      if text_eq t.path (codes "/api/auth/session")
      then auth_session_json r sessions
      else guarded get t.path (get_route lower t r) r sessions

  do_post : Target → Request → Sessions → Response × Sessions
  unfolding auth_login auth_logout guarded post_route text_eq
  do_post t r sessions =
      if text_eq t.path (codes "/api/auth/login")
      then auth_login r sessions
      else if text_eq t.path (codes "/api/auth/logout")
      then auth_logout r sessions
      else guarded post t.path (post_route t r) r sessions

  dispatch : Method → Target → Request → Sessions → Response × Sessions
  unfolding do_get do_post
  dispatch get t r sessions = do_get t r sessions
  dispatch post t r sessions = do_post t r sessions

  handle_target : Option Target → Request → Sessions → Response × Sessions
  unfolding dispatch
  handle_target none r sessions = (aborted, sessions)
  handle_target (some t) r sessions = dispatch r.method t r sessions

  -- One request; `http.server` serves them one after the other.
  unfoldable pub handle : Request → Sessions → Response × Sessions
  unfolding handle_target
  handle r sessions = handle_target r.target r sessions
