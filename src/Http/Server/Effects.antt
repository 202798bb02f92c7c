-- ===== src/Http/Server/Effects.antt =====
-- What a request does to the session of one token, told by the response.
use docrunr.Base.{
  ℕ, ◌+◌, ◌<◌, ◌≡◌, refl, Bool, true, false, not, ◌&&◌, Option, none, some, List, Text, text_eq,
  text_eq_iff, codes, is_empty, ltb, if◌then◌else◌, ℤ, Bool-cases, Option-cases, inl, inr, arith,
}
use docrunr.JobStore.Event.{Value, str_value}
use docrunr.Http.Session.{
  Sessions, session_ttl, find_session, session_valid, check_found, session_revoke, find-remove,
  find-create,
}
use docrunr.Http.Route.{Method, get, post, path_requires_auth}
use docrunr.Http.Request.{
  Target, Request, Response, logged_in, logged_out, Decoded, password, read_length, is_login_length,
}
use docrunr.Http.Pages.Quiet.{is_quiet, artifact_response-quiet, ui_or_404-quiet}
use docrunr.Http.Server.{
  request_session_token, get_route, upload_result, upload_priority, upload_body, upload_length,
  upload_route, post_route, request_has_valid_session, guarded, auth_session_json, login_checked,
  login_password, login_decoded, login_body, login_length, auth_login, auth_logout, do_get, do_post,
  dispatch, handle_target, handle,
}

-- An empty cookie is no cookie.
abbrev pub cookie_is : Option Text → Text → Bool
cookie_is none token = false
cookie_is (some u) token = not (is_empty u) && text_eq u token

-- When the session of `token` ends after a request and its response, from when it ended before.
abbrev pub seen : Request → Response → Text → Option ℕ → Option ℕ
seen r (logged_in u) token before =
    if text_eq u token
    then some (r.now + session_ttl)
    else if cookie_is (request_session_token r) token
    then none
    else before
seen r logged_out token before = if cookie_is (request_session_token r) token then none else before
seen r _ token before = before

-- An entry is kept, or dropped once its time is over.
pub data Kept (now : ℕ) (expected actual : Option ℕ) : Type 0 where
  same : actual ≡ expected → Kept now expected actual
  lapsed : (exp : ℕ) → expected ≡ some exp → exp < now → actual ≡ none → Kept now expected actual

check_found-Kept :
    (t u : Text) (now : ℕ) (s : Sessions)
    → Kept now (find_session t s) (find_session t (check_found u now (find_session u s) s).1)
unfolding check_found
check_found-Kept t u now s = elim (Option-cases (find_session u s)) [
  | inl missing ↦ rw (missing, check_found) (same refl)
  | inr (exp, found) ↦
      rw (found, check_found)
        (elim (Bool-cases (ltb exp now)) [
          | inr live ↦ rw live (same refl)
          | inl over ↦
              rw (over, find-remove t u s)
                (elim (Bool-cases (text_eq u t)) [
                  | inr other ↦ rw other (same refl)
                  | inl equal ↦
                      rw equal (lapsed exp (ground (arith, text_eq_iff u t)) (ground arith) refl)
                ])
        ])
]

valid-Kept :
    (t : Text) (cookie : Option Text) (now : ℕ) (s : Sessions)
    → Kept now (find_session t s) (find_session t (session_valid cookie now s).1)
unfolding session_valid
valid-Kept t none now s = same refl
valid-Kept t (some u) now s = elim (Bool-cases (is_empty u)) [
  | inl blank ↦ rw blank (same refl)
  | inr filled ↦ rw filled (check_found-Kept t u now s)
]

find-revoke :
    (t : Text) (cookie : Option Text) (s : Sessions)
    → find_session t (session_revoke cookie s)
      ≡ (if cookie_is cookie t then none else find_session t s)
unfolding session_revoke
find-revoke t none s = refl
find-revoke t (some u) s = ground (arith, find-remove t u s)

seen-quiet :
    (r : Request) (response : Response) (t : Text) (before : Option ℕ)
    → is_quiet response ≡ true
    → seen r response t before ≡ before
seen-quiet r response t before h = ground arith

module _ (lower : Text → Text) where
  pub get_route-quiet : (t : Target) (r : Request) → is_quiet (get_route lower t r) ≡ true
  unfolding get_route
  get_route-quiet t r =
      ground (
        arith,
        artifact_response-quiet lower t.artifact_path r.storage,
        ui_or_404-quiet t.path r.ui,
      )

pub post_route-quiet : (t : Target) (r : Request) → is_quiet (post_route t r) ≡ true
unfolding post_route upload_route upload_length upload_body upload_priority upload_result
post_route-quiet t r = ground arith

module _ {F : Type 0} (lower : Text → Text) (decode : List ℕ → Decoded F)
    (digest : Text → Option Text) (ui_password : Text) (r : Request) (s : Sessions) (t : Text) where
  -- A response with the table behind it does what the response tells.
  abbrev Tells : Response × Sessions → Type 0
  Tells out = Kept r.now (seen r out.0 t (find_session t s)) (find_session t out.1)

  has_session-Kept :
      Kept r.now
        (find_session t s)
        (find_session t (request_has_valid_session lower decode digest ui_password r s).1)
  unfolding request_has_valid_session
  has_session-Kept = elim (Bool-cases (is_empty ui_password)) [
    | inl free ↦ rw free (same refl)
    | inr gated ↦ rw gated (valid-Kept t (request_session_token r) r.now s)
  ]

  guarded-Tells :
      (method : Method) (path : Text) (response : Response)
      → is_quiet response ≡ true
      → Tells (guarded lower decode digest ui_password method path response r s)
  unfolding guarded
  guarded-Tells method path response quiet =
      elim (Bool-cases (path_requires_auth (not (is_empty ui_password)) method path)) [
        | inr free ↦ rw (free, seen-quiet r response t (find_session t s) quiet) (same refl)
        | inl gated ↦
            let kept = has_session-Kept in
            elim (Bool-cases (request_has_valid_session lower decode digest ui_password r s).0) [
              | inl live ↦ rw (gated, live, seen-quiet r response t (find_session t s) quiet) kept
              | inr refused ↦ rw (gated, refused) kept
            ]
      ]

  auth_session_json-Tells : Tells (auth_session_json lower decode digest ui_password r s)
  unfolding auth_session_json
  auth_session_json-Tells = elim (Bool-cases (is_empty ui_password)) [
    | inl free ↦ rw free (same refl)
    | inr gated ↦ rw gated (valid-Kept t (request_session_token r) r.now s)
  ]

  login_checked-Tells :
      (matches : Option Bool) → Tells (login_checked lower decode digest ui_password r s matches)
  unfolding login_checked
  login_checked-Tells none = same refl
  login_checked-Tells (some false) = same refl
  login_checked-Tells (some true) = same (
      ground (
        arith,
        find-create t r.fresh r.now (session_revoke (request_session_token r) s),
        find-revoke t (request_session_token r) s,
      ))

  login_password-Tells :
      (value : Value F) → Tells (login_password lower decode digest ui_password r s value)
  unfolding login_password
  login_password-Tells (str_value received) = login_checked-Tells _
  login_password-Tells _ = same refl

  login_decoded-Tells :
      (decoded : Decoded F) → Tells (login_decoded lower decode digest ui_password r s decoded)
  unfolding login_decoded
  login_decoded-Tells (password value) = login_password-Tells value
  login_decoded-Tells _ = same refl

  login_body-Tells :
      (body : Option (List ℕ)) → Tells (login_body lower decode digest ui_password r s body)
  unfolding login_body
  login_body-Tells none = same refl
  login_body-Tells (some raw) = login_decoded-Tells (decode raw)

  login_length-Tells :
      (length : Option ℤ) → Tells (login_length lower decode digest ui_password r s length)
  unfolding login_length
  login_length-Tells none = same refl
  login_length-Tells (some length) = elim (Bool-cases (is_login_length length)) [
    | inl fits ↦ rw fits (login_body-Tells r.body)
    | inr not_fit ↦ rw not_fit (same refl)
  ]

  auth_login-Tells : Tells (auth_login lower decode digest ui_password r s)
  unfolding auth_login
  auth_login-Tells = elim (Bool-cases (is_empty ui_password)) [
    | inl free ↦ rw free (same refl)
    | inr gated ↦ rw gated (login_length-Tells (read_length r.content_length))
  ]

  do_get-Tells : (u : Target) → Tells (do_get lower decode digest ui_password u r s)
  unfolding do_get
  do_get-Tells u = elim (Bool-cases (text_eq u.path (codes "/api/auth/session"))) [
    | inl asked ↦ rw asked auth_session_json-Tells
    | inr other ↦
        rw other (guarded-Tells get u.path (get_route lower u r) (get_route-quiet lower u r))
  ]

  do_post-Tells : (u : Target) → Tells (do_post lower decode digest ui_password u r s)
  unfolding do_post auth_logout
  do_post-Tells u = elim (Bool-cases (text_eq u.path (codes "/api/auth/login"))) [
    | inl login ↦ rw login auth_login-Tells
    | inr other ↦ elim (Bool-cases (text_eq u.path (codes "/api/auth/logout"))) [
      | inl logout ↦
          rw (other, logout, auth_logout) (same (find-revoke t (request_session_token r) s))
      | inr rest ↦
          rw (other, rest) (guarded-Tells post u.path (post_route u r) (post_route-quiet u r))
    ]
  ]

  dispatch-Tells :
      (method : Method) (u : Target) → Tells (dispatch lower decode digest ui_password method u r s)
  unfolding dispatch
  dispatch-Tells get u = do_get-Tells u
  dispatch-Tells post u = do_post-Tells u

  handle_target-Tells :
      (target : Option Target) → Tells (handle_target lower decode digest ui_password target r s)
  unfolding handle_target
  handle_target-Tells none = same refl
  handle_target-Tells (some u) = dispatch-Tells r.method u

  -- What a request does to a session is what its response tells, up to sessions that have ended.
  pub handle-Tells :
      let out = handle lower decode digest ui_password r s in
      Kept r.now (seen r out.0 t (find_session t s)) (find_session t out.1)
  unfolding handle
  handle-Tells = handle_target-Tells r.target
