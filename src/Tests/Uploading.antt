-- ===== src/Tests/Uploading.antt =====
-- Uploads of small forms.
use docrunr.Base.{ℕ, ◌≡◌, inr, zero, refl, true, false, List, [], ◌∷◌, Text, codes, text_eq}
use docrunr.Messages.Names.{
  Hour, is_allowed_upload_suffix, input_relative_path, file_suffix_for_upload, safe_client_filename,
}
use docrunr.Messages.Payload.{payload_of}
use docrunr.Uploads.{
  FileCalls, whole, left_part, ran, goes_out, no_connection, refused, queued, wrote, removed,
  declared, sent, Run, with_calls, process_upload_request,
}
use docrunr.Uploads.Balanced.{names_of}
use docrunr.Uploads.Balanced.Files.{Balanced, process_upload_request-Balanced}
use docrunr.Base.{some}

abbrev as_is : Text → Text
as_is t = t

abbrev morning : Hour
morning = record { year = 2026; month = 1; day = 2; hour = 3 }

-- The first file is sent, the broker is gone for the second.
abbrev file_calls : ℕ → FileCalls
file_calls zero = record {
  job_id = codes "a";
  when = morning;
  stages = true;
  stores = whole;
  unlinks = true;
  publishes = goes_out;
  deletes = true;
}
file_calls _ = record {
  job_id = codes "b";
  when = morning;
  stages = true;
  stores = whole;
  unlinks = true;
  publishes = no_connection;
  deletes = true;
}

abbrev form : List (Text × List ℕ)
form = (codes "x.pdf", 1 ∷ []) ∷ (codes "y.pdf", 2 ∷ []) ∷ (codes "z.exe", 3 ∷ []) ∷ []

abbrev uploaded : Run ℕ
uploaded = record {
  items =
      queued (codes "a") (codes "x.pdf") (codes "input/2026/01/02/03/a.pdf") 7
      ∷ refused (codes "y.pdf") (codes "Failed to queue job for processing")
      ∷ refused (codes "z.exe") (codes "Unsupported or missing file extension")
      ∷ [];
  actions =
      wrote (codes "input/2026/01/02/03/a.pdf")
      ∷ declared (codes "q") true
      ∷ sent (codes "q")
          (payload_of (codes "a") (codes "x.pdf") (codes "input/2026/01/02/03/a.pdf") 7 []) (some 7)
      ∷ wrote (codes "input/2026/01/02/03/b.pdf")
      ∷ removed (codes "input/2026/01/02/03/b.pdf")
      ∷ [];
  crashed = false;
}

process_upload_request-Balanced_example :
    Balanced ℕ as_is (codes "q") 7 [] (names_of (with_calls file_calls zero form)) uploaded
unfolding process_upload_request input_relative_path file_suffix_for_upload text_eq
    is_allowed_upload_suffix safe_client_filename
process_upload_request-Balanced_example =
    process_upload_request-Balanced ℕ as_is (codes "q") 7 [] file_calls form uploaded
      ((refl, refl, refl), ((refl, refl, refl), ((refl, refl, refl), tt)))
      (refl, (refl, (refl, tt))) refl refl

-- A write that raises part way leaves a file for which there is no job.
abbrev half_written : ℕ → FileCalls
half_written n = record {
  job_id = codes "a";
  when = morning;
  stages = true;
  stores = left_part;
  unlinks = true;
  publishes = goes_out;
  deletes = true;
}

part_stays :
    process_upload_request {F = ℕ} as_is
      (codes "q")
      7
      []
      half_written
      (inr ((codes "x.pdf", 1 ∷ []) ∷ []))
    ≡ ran (record {
      items = refused (codes "x.pdf") (codes "Failed to store file") ∷ [];
      actions = wrote (codes "input/2026/01/02/03/a.pdf") ∷ [];
      crashed = false;
    })
unfolding process_upload_request input_relative_path file_suffix_for_upload text_eq
    is_allowed_upload_suffix safe_client_filename
part_stays = refl
