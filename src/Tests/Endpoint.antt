-- ===== src/Tests/Endpoint.antt =====
-- The endpoint at small inputs: bodies are passwords, and their digests are themselves.
use docrunr.Base.{
  ℕ, ◌≡◌, refl, true, false, Option, none, some, List, [], ◌∷◌, Text, codes, text_eq, pos, arith,
}
use docrunr.JobStore.Event.{str_value}
use docrunr.Handler.Artifacts.{build_artifacts}
use docrunr.Handler.Artifacts.Under.{IsUnderOutput}
use docrunr.Handler.Artifacts.Under.Served.{build_artifacts-allowed}
use docrunr.Http.Session.{parse_cookie_value, session_valid}
use docrunr.Http.Route.{get, post, is_allowed_output_path}
use docrunr.Http.Route.Allowed.{is_allowed_output_path-IsUnderOutput}
use docrunr.Http.Request.{
  Target, Request, Decoded, password, outside, no_file, jobs_json, error_json,
}
use docrunr.Http.Server.{handle}
use docrunr.Http.History.{live_until, in_time, after, answer, exchanges}
use docrunr.Http.History.Sessions.{session_valid-live_until}
use docrunr.Http.History.Disclosed.{InSession, disclosed-InSession}

abbrev same_text : Text → Text
same_text t = t

abbrev body_password : List ℕ → Decoded ℕ
body_password raw = password (str_value raw)

abbrev plain_digest : Text → Option Text
plain_digest t = some t

abbrev secret : Text
secret = codes "pw"

abbrev to_path : Text → Target
to_path path = record {
  path = path;
  limit = none;
  status = none;
  search = none;
  artifact_path = none;
  priority = none;
  llm_profile = none;
}

abbrev sign_in : Request
sign_in = record {
  method = post;
  target = some (to_path (codes "/api/auth/login"));
  cookie = none;
  content_length = some (codes "2");
  body = some secret;
  now = 5;
  fresh = codes "tok";
  storage = none;
  upload = none;
  ui = record { has_dist = false; index = no_file; located = outside };
}

abbrev ask_jobs : Request
ask_jobs = record sign_in {
  method = get;
  target = some (to_path (codes "/api/jobs"));
  cookie = some (codes "a=b; docrunr_session=tok");
  now = 9;
}

cookie_read :
    parse_cookie_value (some (codes "a=b; docrunr_session= tok ; c")) (codes "docrunr_session")
    ≡ some (codes "tok")
unfolding parse_cookie_value
cookie_read = refl

jobs_shown :
    answer same_text body_password plain_digest secret ask_jobs (sign_in ∷ [])
    ≡ jobs_json (pos 100) none none
unfolding handle after parse_cookie_value
jobs_shown = refl

jobs_refused :
    answer same_text body_password plain_digest secret ask_jobs []
    ≡ error_json 401 (codes "unauthorized")
unfolding handle after parse_cookie_value
jobs_refused = refl

disclosed-InSession_example :
    InSession same_text body_password plain_digest secret ask_jobs (sign_in ∷ [])
unfolding handle after parse_cookie_value
disclosed-InSession_example =
    disclosed-InSession same_text body_password plain_digest secret ask_jobs (sign_in ∷ []) refl
      refl

session_valid-live_until_example :
    (session_valid
      (some (codes "tok"))
      9
      (after same_text body_password plain_digest secret (ask_jobs ∷ sign_in ∷ []))).0
    ≡ in_time 9 (
        live_until
          (codes "tok")
          (exchanges same_text body_password plain_digest secret (ask_jobs ∷ sign_in ∷ [])))
session_valid-live_until_example =
    session_valid-live_until same_text body_password plain_digest secret (codes "tok") 9
      (ask_jobs ∷ sign_in ∷ []) (omega arith) refl

is_allowed_output_path-IsUnderOutput_example : IsUnderOutput (codes "output/a/b.md")
unfolding is_allowed_output_path
is_allowed_output_path-IsUnderOutput_example =
    is_allowed_output_path-IsUnderOutput same_text refl (codes "output/a/b.md") refl

build_artifacts-allowed_example :
    (is_allowed_output_path same_text (codes "output/a/b.md") ≡ true)
    × (is_allowed_output_path same_text (codes "output/a/b.json") ≡ true)
unfolding build_artifacts text_eq
build_artifacts-allowed_example =
    build_artifacts-allowed same_text refl refl (codes "input/a/b.pdf")
      (record {
        stem = codes "b";
        markdown_path = codes "output/a/b.md";
        chunks_path = codes "output/a/b.json";
      })
      refl
