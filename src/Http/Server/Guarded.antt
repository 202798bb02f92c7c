-- ===== src/Http/Server/Guarded.antt =====
-- What the session guards: the jobs, the artifacts and the uploads.
use mathlib.Core.Path.{subst}
use docrunr.Base.{
  ℕ, ◌≤◌, ◌≡◌, refl, sym, true, false, Option, none, some, List, Text, codes, text_eq, text_eq_iff,
  is_empty, ltb, ℤ, Bool-cases, Option-cases, inl, inr, arith,
}
use docrunr.JobStore.Event.{Value}
use docrunr.Http.Session.{Sessions, find_session, session_valid, check_found}
use docrunr.Http.Route.{Method, get, post, path_requires_auth}
use docrunr.Http.Request.{Target, Request, Response, Decoded, password, read_length}
use docrunr.Http.Pages.Quiet.{discloses, ui_or_404-closed}
use docrunr.Http.Server.{
  request_session_token, get_route, post_route, request_has_valid_session, guarded,
  auth_session_json, login_checked, login_password, login_decoded, login_body, login_length,
  auth_login, auth_logout, do_get, do_post, dispatch, handle_target, handle,
}

wants_session :
    (p q : Text) (m : Method)
    → text_eq p q ≡ true
    → path_requires_auth true m q ≡ true
    → path_requires_auth true m p ≡ true
wants_session p q m e h =
    subst (λ x. path_requires_auth true m x ≡ true) (sym ((text_eq_iff p q).0 e)) h

-- A free path shows nothing that is guarded.
get_route-guarded :
    (lower : Text → Text) (u : Target) (r : Request)
    → discloses (get_route lower u r) ≡ true
    → path_requires_auth true get u.path ≡ true
unfolding get_route path_requires_auth
get_route-guarded lower u r h = elim (Bool-cases (text_eq u.path (codes "/api/jobs"))) [
  | inl jobs ↦ wants_session u.path (codes "/api/jobs") get jobs refl
  | inr no_jobs ↦ elim (Bool-cases (text_eq u.path (codes "/api/artifact"))) [
    | inl artifact ↦ wants_session u.path (codes "/api/artifact") get artifact refl
    | inr no_artifact ↦ absurd (ground (arith, ui_or_404-closed u.path r.ui))
  ]
]

post_route-guarded :
    (u : Target) (r : Request)
    → discloses (post_route u r) ≡ true
    → path_requires_auth true post u.path ≡ true
unfolding post_route path_requires_auth
post_route-guarded u r h = elim (Bool-cases (text_eq u.path (codes "/api/uploads"))) [
  | inl uploads ↦ wants_session u.path (codes "/api/uploads") post uploads refl
  | inr other ↦ absurd (ground arith)
]

-- The cookie names a session that has not ended.
pub record HasSession (r : Request) (s : Sessions) : Type 0 where
  pub token : Text
  pub cookie : request_session_token r ≡ some token
  pub ends : ℕ
  pub found : find_session token s ≡ some ends
  pub in_time : r.now ≤ ends

session_valid-HasSession :
    (r : Request) (s : Sessions) (cookie : Option Text)
    → request_session_token r ≡ cookie
    → (session_valid cookie r.now s).0 ≡ true
    → HasSession r s
unfolding session_valid
session_valid-HasSession r s none e h = absurd (cc)
session_valid-HasSession r s (some token) e h = elim (Bool-cases (is_empty token)) [
  | inl blank ↦ absurd (cc (rw blank at h))
  | inr filled ↦ elim (Option-cases (find_session token s)) [
    | inl missing ↦ absurd (cc (rw (filled, missing, check_found) at h))
    | inr (ends, found) ↦ elim (Bool-cases (ltb ends r.now)) [
      | inl over ↦ absurd (cc (rw (filled, found, check_found, over) at h))
      | inr live ↦ record {
        token = token;
        cookie = e;
        ends = ends;
        found = found;
        in_time = ground arith;
      }
    ]
  ]
]

module _ {F : Type 0} (lower : Text → Text) (decode : List ℕ → Decoded F)
    (digest : Text → Option Text) (ui_password : Text) (gated : is_empty ui_password ≡ false)
    (r : Request) (s : Sessions) where
  guarded-HasSession :
      (method : Method) (path : Text) (response : Response)
      → (discloses response ≡ true → path_requires_auth true method path ≡ true)
      → discloses (guarded lower decode digest ui_password method path response r s).0 ≡ true
      → HasSession r s
  unfolding guarded request_has_valid_session
  guarded-HasSession method path response wants h =
      elim (Bool-cases (path_requires_auth true method path)) [
        | inr free ↦ absurd (cc (wants (rw (gated, free) at h), free))
        | inl auth ↦ elim (Bool-cases (session_valid (request_session_token r) r.now s).0) [
          | inl live ↦ session_valid-HasSession r s (request_session_token r) refl live
          | inr refused ↦ absurd (cc (rw (gated, auth, refused) at h))
        ]
      ]

  login_password-closed :
      (value : Value F)
      → discloses (login_password lower decode digest ui_password r s value).0 ≡ false
  unfolding login_password login_checked
  login_password-closed value = ground arith

  login_body-closed :
      (body : Option (List ℕ))
      → discloses (login_body lower decode digest ui_password r s body).0 ≡ false
  unfolding login_body login_decoded
  login_body-closed none = refl
  login_body-closed (some raw) = go (decode raw)
    where
      go :
          (decoded : Decoded F)
          → discloses (login_decoded lower decode digest ui_password r s decoded).0 ≡ false
      go (password value) = login_password-closed value
      go _ = refl

  auth_login-closed : discloses (auth_login lower decode digest ui_password r s).0 ≡ false
  unfolding auth_login login_length
  auth_login-closed = rw gated (go (read_length r.content_length))
    where
      go :
          (length : Option ℤ)
          → discloses (login_length lower decode digest ui_password r s length).0 ≡ false
      go none = refl
      go (some length) = ground (arith, login_body-closed r.body)

  do_get-HasSession :
      (u : Target)
      → discloses (do_get lower decode digest ui_password u r s).0 ≡ true
      → HasSession r s
  unfolding do_get auth_session_json
  do_get-HasSession u h = elim (Bool-cases (text_eq u.path (codes "/api/auth/session"))) [
    | inl asked ↦ absurd (cc (rw (asked, gated) at h))
    | inr other ↦
        guarded-HasSession get u.path (get_route lower u r) (get_route-guarded lower u r)
          (rw other at h)
  ]

  do_post-HasSession :
      (u : Target)
      → discloses (do_post lower decode digest ui_password u r s).0 ≡ true
      → HasSession r s
  unfolding do_post auth_logout
  do_post-HasSession u h = elim (Bool-cases (text_eq u.path (codes "/api/auth/login"))) [
    | inl login ↦ absurd (cc (auth_login-closed, rw login at h))
    | inr other ↦ elim (Bool-cases (text_eq u.path (codes "/api/auth/logout"))) [
      | inl logout ↦ absurd (cc (rw (other, logout, auth_logout) at h))
      | inr rest ↦
          guarded-HasSession post u.path (post_route u r) (post_route-guarded u r)
            (rw (other, rest) at h)
    ]
  ]

  handle_target-HasSession :
      (target : Option Target)
      → discloses (handle_target lower decode digest ui_password target r s).0 ≡ true
      → HasSession r s
  unfolding handle_target dispatch
  handle_target-HasSession none h = absurd (cc)
  handle_target-HasSession (some u) h = go r.method h
    where
      go :
          (m : Method)
          → discloses (dispatch lower decode digest ui_password m u r s).0 ≡ true
          → HasSession r s
      go get h = do_get-HasSession u h
      go post h = do_post-HasSession u h

  -- Under a password, jobs, artifacts and uploads are only for a session that has not ended.
  pub handle-HasSession :
      discloses (handle lower decode digest ui_password r s).0 ≡ true → HasSession r s
  unfolding handle
  handle-HasSession h = handle_target-HasSession r.target h
