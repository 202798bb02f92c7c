-- ===== src/Http/Request.antt =====
-- What a request to worker/src/docrunr_worker/health.py brings, and what is sent back. A request
-- comes with what libraries and other parts give for it: the URL taken apart, the body read, the
-- time, a fresh token, the answers of the storage and of the upload, and the files of the user
-- interface. A number of more digits than `int` takes counts as any other.
use docrunr.Base.{
  ℕ, Bool, false, not, ◌&&◌, Option, none, some, List, Text, ltb, ℤ, pos, negsuc, parse_int,
}
use docrunr.JobStore.Event.{Value}
use docrunr.Http.Route.{Method}

-- The path of the URL, and the first value of each parameter of its query.
pub record Target : Type 0 where
  pub path : Text
  pub limit : Option Text
  pub status : Option Text
  pub search : Option Text
  pub artifact_path : Option Text
  pub priority : Option Text
  pub llm_profile : Option Text

-- `storage.read` with the reading of the bytes
pub data Read : Type 0 where
  not_found failed found : Read

-- `process_upload_request`: `UploadRequestError`, another exception, or a result
pub data Upload : Type 0 where
  refused : Text → Upload
  crashed accepted : Upload

-- `_static_file_response`: no file, a file that cannot be read, or its bytes
pub data Served : Type 0 where
  no_file unreadable served : Served

-- A path resolved below the folder of the user interface; `resolve` raises on a NUL.
pub data Located : Type 0 where
  unresolvable outside : Located
  inside : Served → Located

pub record Ui : Type 0 where
  pub has_dist : Bool
  pub index : Served
  pub located : Located

-- `none` as the target is a URL that `urlparse` refuses, as the body an `OSError`.
pub record Request : Type 0 where
  pub method : Method
  pub target : Option Target
  pub cookie : Option Text
  pub content_length : Option Text
  pub body : Option (List ℕ)
  pub now : ℕ
  pub fresh : Text
  pub storage : Option Read
  pub upload : Option Upload
  pub ui : Ui

-- What is sent. `aborted` stands for an exception that nothing catches.
pub data Response : Type 0 where
  health_json stats_json overview_json : Response
  jobs_json : ℤ → Option Text → Option Text → Response
  artifact_bytes : Text → Text → Response
  uploaded : ℕ → Text → Response
  session_json : Bool → Bool → Response
  logged_in : Text → Response
  logged_out : Response
  ui_bytes : Response
  error_json : ℕ → Text → Response
  send_error : ℕ → Text → Response
  aborted : Response

-- `json.loads(raw.decode("utf-8"))`: what is caught, any other exception, no object, or the value
-- at `password` (`none_value` where it is missing)
pub data Decoded (F : Type 0) : Type 0 where
  bad_json raises not_object : Decoded F
  password : Value F → Decoded F

-- `int(self.headers.get("Content-Length", "0"))`
abbrev pub read_length : Option Text → Option ℤ
read_length none = some (pos 0)
read_length (some text) = parse_int text

abbrev pub is_positive : ℤ → Bool
is_positive (pos n) = ltb 0 n
is_positive (negsuc n) = false

abbrev pub is_login_length : ℤ → Bool
is_login_length (pos n) = ltb 0 n && not (ltb 65536 n)
is_login_length (negsuc n) = false
