-- ===== src/Tests/Messaging.antt =====
-- File names and messages at concrete inputs.
use docrunr.Base.{
  [], true, none, inr, ℕ, ◌≡◌, refl, false, Option, some, Text, codes, is_empty, pos, All, strip,
  text_eq,
}
use docrunr.JobStore.Event.{int_value}
use docrunr.Handler.Request.{Message, parse_job_request_from_body}
use docrunr.Handler.Request.RoundTrip.{request_of, parse_job_request_from_body-job_payload_dict}
use docrunr.Handler.Job.{Converted, Calls, handle_extract_job}
use docrunr.Handler.Job.Honest.{IsHonest, handle_extract_job-IsHonest}
use docrunr.Messages.Payload.{payload_of, job_payload_dict}
use docrunr.Messages.Names.{safe_client_filename}
use docrunr.Messages.Names.Safe.{IsNameChar, safe_client_filename-IsNameChar}

safe_client_filename-IsNameChar_example :
    All IsNameChar (safe_client_filename (codes "C:\\docs/a.pdf"))
    × (is_empty (safe_client_filename (codes "C:\\docs/a.pdf")) ≡ false)
safe_client_filename-IsNameChar_example = safe_client_filename-IsNameChar (codes "C:\\docs/a.pdf")

name_of_windows_path : safe_client_filename (codes "C:\\docs\\ a.pdf ") ≡ codes "a.pdf"
unfolding safe_client_filename text_eq strip
name_of_windows_path = refl

abbrev written : Message ℕ
written = payload_of (codes "7") (codes "a.pdf") (codes "input/7.pdf") 5 (codes " p ")

abbrev decode_written : Text → Option (Message ℕ)
decode_written body = some written

abbrev digest : Text → Text
digest t = t

parse_job_request_from_body-job_payload_dict_example :
    parse_job_request_from_body decode_written digest (codes "{}") (codes "d")
    ≡ request_of (codes "7") (codes "a.pdf") (codes "input/7.pdf") 5 (codes " p ")
unfolding job_payload_dict strip
parse_job_request_from_body-job_payload_dict_example =
    parse_job_request_from_body-job_payload_dict decode_written digest (codes "7") (codes "a.pdf")
      (codes "input/7.pdf") (codes " p ") (codes "{}") (codes "d") (int_value (pos 5)) 5 written
      refl refl refl refl refl

abbrev converted : Converted
converted = record {
  is_ok = true;
  error_text = [];
  mime_type = codes "application/pdf";
  size_bytes = pos 9;
  total_tokens = 3;
  total_chars = 12;
  chunk_count = 1;
}

abbrev smooth_run : Calls
smooth_run = record {
  bad_message = [];
  arms = none;
  reads = none;
  converts = inr converted;
  bad_path = [];
  writes_result = none;
  writes_markdown = none;
  writes_chunks = none;
  returns = none;
}

handle_extract_job-IsHonest_example :
    IsHonest
      (parse_job_request_from_body decode_written digest (codes "{}") (codes "d"))
      (handle_extract_job decode_written digest smooth_run (codes "{}") (codes "d"))
handle_extract_job-IsHonest_example =
    handle_extract_job-IsHonest decode_written digest smooth_run (codes "{}") (codes "d")
