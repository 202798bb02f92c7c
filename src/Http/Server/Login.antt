-- ===== src/Http/Server/Login.antt =====
-- Who gets a session.
use docrunr.Base.{
  ℕ, ◌≡◌, ◌≢◌, refl, ap, true, false, not, Option, none, some, List, Text, codes, text_eq,
  text_eq_iff, is_empty, Bool-cases, Option-cases, inl, inr, arith,
}
use docrunr.JobStore.Event.{str_value}
use docrunr.Http.Session.{Sessions}
use docrunr.Http.Route.{Method, get, post, path_requires_auth, is_post}
use docrunr.Http.Request.{
  Target, Request, Response, logged_in, Decoded, password, read_length, is_login_length,
}
use docrunr.Http.Pages.Quiet.{is_quiet}
use docrunr.Http.Server.Effects.{get_route-quiet, post_route-quiet}
use docrunr.Http.Server.{
  get_route, post_route, request_has_valid_session, guarded, auth_session_json, login_checked,
  login_password, login_decoded, login_body, login_length, auth_login, auth_logout, do_get, do_post,
  dispatch, handle_target, handle, both_digests,
}

module _ {F : Type 0} (lower : Text → Text) (decode : List ℕ → Decoded F)
    (digest : Text → Option Text) (ui_password : Text) (r : Request) where
  -- A request to sign in, with the password in its body, that is given the token `u`.
  pub record SignsIn (u : Text) : Type 0 where
    pub gated : is_empty ui_password ≡ false
    pub posted : is_post r.method ≡ true
    pub target : Target
    pub parsed : r.target ≡ some target
    pub path : text_eq target.path (codes "/api/auth/login") ≡ true
    pub raw : List ℕ
    pub body : r.body ≡ some raw
    pub received : Text
    pub decoded : decode raw ≡ password (str_value received)
    pub hash : Text
    pub expected : digest ui_password ≡ some hash
    pub matches : digest received ≡ some hash
    pub given : r.fresh ≡ u

  -- The body and what is read from it.
  record RightBody (u : Text) : Type 0 where
    raw : List ℕ
    body : r.body ≡ some raw
    received : Text
    decoded : decode raw ≡ password (str_value received)
    hash : Text
    expected : digest ui_password ≡ some hash
    matches : digest received ≡ some hash
    given : r.fresh ≡ u

module _ {F : Type 0} (lower : Text → Text) (decode : List ℕ → Decoded F)
    (digest : Text → Option Text) (ui_password : Text) (r : Request) (s : Sessions) (u : Text) where
  right_digests :
      (expected received : Option Text)
      → (login_checked lower decode digest ui_password r s
          (both_digests lower decode digest ui_password expected received)).0
        ≡ logged_in u
      → (hash : Text) × (expected ≡ some hash) × (received ≡ some hash) × (r.fresh ≡ u)
  unfolding login_checked
  right_digests none received h = absurd (cc)
  right_digests (some a) none h = absurd (cc)
  right_digests (some a) (some b) h = elim (Bool-cases (text_eq a b)) [
    | inl equal ↦ (a, refl, ground (arith, text_eq_iff a b), cc (rw equal at h))
    | inr other ↦ absurd (cc (rw other at h))
  ]

  right_body :
      (raw : List ℕ) (decoded : Decoded F)
      → r.body ≡ some raw
      → decode raw ≡ decoded
      → (login_decoded lower decode digest ui_password r s decoded).0 ≡ logged_in u
      → RightBody lower decode digest ui_password r u
  unfolding login_decoded login_password
  right_body raw (password (str_value received)) b d h =
      let (hash, e, m, f) = right_digests (digest ui_password) (digest received) h in
      record {
        raw = raw;
        body = b;
        received = received;
        decoded = d;
        hash = hash;
        expected = e;
        matches = m;
        given = f;
      }
  right_body raw _ b d h = absurd (cc)

  auth_login-RightBody :
      (body : Option (List ℕ))
      → r.body ≡ body
      → (login_body lower decode digest ui_password r s body).0 ≡ logged_in u
      → RightBody lower decode digest ui_password r u
  unfolding login_body
  auth_login-RightBody none b h = absurd (cc)
  auth_login-RightBody (some raw) b h = right_body raw (decode raw) b refl h

  guarded-quiet :
      (m : Method) (path : Text) (response : Response)
      → is_quiet response ≡ true
      → is_quiet (guarded lower decode digest ui_password m path response r s).0 ≡ true
  unfolding guarded
  guarded-quiet m path response quiet =
      elim (Bool-cases (path_requires_auth (not (is_empty ui_password)) m path)) [
        | inr free ↦ rw free quiet
        | inl auth ↦
            elim (Bool-cases (request_has_valid_session lower decode digest ui_password r s).0) [
              | inl live ↦ rw (auth, live) quiet
              | inr refused ↦ rw (auth, refused) refl
            ]
      ]

  not_quiet : (out : Response) → is_quiet out ≡ true → out ≢ logged_in u
  not_quiet out quiet e = absurd (cc (quiet, ap is_quiet e))

  auth_login-SignsIn :
      (t : Target)
      → is_post r.method ≡ true
      → r.target ≡ some t
      → text_eq t.path (codes "/api/auth/login") ≡ true
      → (auth_login lower decode digest ui_password r s).0 ≡ logged_in u
      → SignsIn lower decode digest ui_password r u
  unfolding auth_login login_length
  auth_login-SignsIn t posted parsed path h = elim (Bool-cases (is_empty ui_password)) [
    | inl free ↦ absurd (cc (rw free at h))
    | inr gated ↦ elim (Option-cases (read_length r.content_length)) [
      | inl bad ↦ absurd (cc (rw (gated, bad, login_length) at h))
      | inr (length, good) ↦ elim (Bool-cases (is_login_length length)) [
        | inr bad ↦ absurd (cc (rw (gated, good, login_length, bad) at h))
        | inl fits ↦
            let b = auth_login-RightBody r.body refl (rw (gated, good, login_length, fits) at h) in
            record {
              gated = gated;
              posted = posted;
              target = t;
              parsed = parsed;
              path = path;
              raw = b.raw;
              body = b.body;
              received = b.received;
              decoded = b.decoded;
              hash = b.hash;
              expected = b.expected;
              matches = b.matches;
              given = b.given;
            }
      ]
    ]
  ]

  dispatch-SignsIn :
      (m : Method) (t : Target)
      → r.method ≡ m
      → r.target ≡ some t
      → (dispatch lower decode digest ui_password m t r s).0 ≡ logged_in u
      → SignsIn lower decode digest ui_password r u
  unfolding dispatch do_get do_post auth_session_json auth_logout
  dispatch-SignsIn get t m p h = elim (Bool-cases (text_eq t.path (codes "/api/auth/session"))) [
    | inl asked ↦ elim (Bool-cases (is_empty ui_password)) [
      | inl free ↦ absurd (cc (rw (asked, free) at h))
      | inr gated ↦ absurd (cc (rw (asked, gated) at h))
    ]
    | inr other ↦ absurd (
        not_quiet _ (guarded-quiet get t.path (get_route lower t r) (get_route-quiet lower t r))
          (rw other at h))
  ]
  dispatch-SignsIn post t m p h = elim (Bool-cases (text_eq t.path (codes "/api/auth/login"))) [
    | inl login ↦ auth_login-SignsIn t (ap is_post m) p login (rw login at h)
    | inr other ↦ elim (Bool-cases (text_eq t.path (codes "/api/auth/logout"))) [
      | inl logout ↦ absurd (cc (rw (other, logout, auth_logout) at h))
      | inr rest ↦ absurd (
          not_quiet _ (guarded-quiet post t.path (post_route t r) (post_route-quiet t r))
            (rw (other, rest) at h))
    ]
  ]

  -- A token is given only to a request to sign in whose body holds the password, by its hash.
  pub handle-SignsIn :
      (handle lower decode digest ui_password r s).0 ≡ logged_in u
      → SignsIn lower decode digest ui_password r u
  unfolding handle handle_target
  handle-SignsIn h = go r.target refl h
    where
      go :
          (target : Option Target)
          → r.target ≡ target
          → (handle_target lower decode digest ui_password target r s).0 ≡ logged_in u
          → SignsIn lower decode digest ui_password r u
      go none e h = absurd (cc)
      go (some t) e h = dispatch-SignsIn r.method t refl e h
