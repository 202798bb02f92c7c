-- ===== src/Messages/Names.antt =====
-- The file names and paths of runtime/src/docrunr_runtime/messages.py. `lower` is `str.lower`,
-- which follows the Unicode tables.
pub mod Safe
use docrunr.Base.{
  ℕ, ◌+◌, Bool, true, false, ◌&&◌, ◌||◌, none, some, List, [], ◌∷◌, ◌++◌, Text, codes, text_eq,
  is_empty, strip, ltb, ◌==◌, if◌then◌else◌, length, drop, decimal, path_name, rfind_dot,
}

-- `raw.replace("\\", "/")`
unfoldable pub replace_backslash : Text → Text
replace_backslash [] = []
replace_backslash (c ∷ cs) = (if c == 92 then b'/' else c) ∷ replace_backslash cs

unfoldable pub safe_client_filename : Text → Text
unfolding replace_backslash path_name strip
safe_client_filename raw =
    let name = strip (path_name (replace_backslash raw)) in
    if is_empty name then codes "unknown" else name

-- The suffix of a name.
unfoldable pub suffix_of : Text → Text
unfolding rfind_dot
suffix_of name = elim (rfind_dot name) [
  | none ↦ []
  | some i ↦ if ltb 0 i && ltb (i + 1) (length name) then drop i name else []
]

abbrev allowed_upload_suffixes : List Text
allowed_upload_suffixes =
    codes ".pdf"
    ∷ codes ".docx"
    ∷ codes ".doc"
    ∷ codes ".odt"
    ∷ codes ".xlsx"
    ∷ codes ".xls"
    ∷ codes ".ods"
    ∷ codes ".csv"
    ∷ codes ".pptx"
    ∷ codes ".ppt"
    ∷ codes ".odp"
    ∷ codes ".eml"
    ∷ codes ".msg"
    ∷ codes ".html"
    ∷ codes ".htm"
    ∷ codes ".xml"
    ∷ codes ".md"
    ∷ codes ".json"
    ∷ codes ".txt"
    ∷ codes ".jpg"
    ∷ codes ".jpeg"
    ∷ codes ".png"
    ∷ codes ".tiff"
    ∷ codes ".tif"
    ∷ codes ".bmp"
    ∷ []

abbrev pub is_member : Text → List Text → Bool
is_member text [] = false
is_member text (t ∷ ts) = text_eq t text || is_member text ts

unfoldable pub is_allowed_upload_suffix : Text → Bool
unfolding text_eq
is_allowed_upload_suffix suffix = is_member suffix allowed_upload_suffixes

-- The fields of a `datetime` that are read.
pub record Hour : Type 0 where
  pub year : ℕ
  pub month : ℕ
  pub day : ℕ
  pub hour : ℕ

-- `f"{n:02d}"`
two_digits : ℕ → Text
unfolding decimal
two_digits n = if ltb n 10 then b'0' ∷ decimal n else decimal n

module _ (lower : Text → Text) where
  unfoldable pub file_suffix_for_upload : Text → Text
  unfolding safe_client_filename suffix_of path_name
  file_suffix_for_upload filename = lower (suffix_of (path_name (safe_client_filename filename)))

  unfoldable pub input_relative_path : Text → Text → Hour → Text
  unfolding two_digits decimal
  input_relative_path job_id file_suffix when =
      codes "input/"
      ++ (decimal when.year
          ++ b'/'
            ∷ (two_digits when.month
                ++ b'/'
                  ∷ (two_digits when.day
                      ++ b'/' ∷ (two_digits when.hour ++ b'/' ∷ (job_id ++ lower file_suffix)))))
