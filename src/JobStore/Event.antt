-- ===== src/JobStore/Event.antt =====
-- `PersistedJob`, `enqueue_job`, `_event_to_job` and the coercions of
-- worker/src/docrunr_worker/job_store.py. `F` is Python's float.
use docrunr.Base.{
  Bool, Option, none, some, Text, codes, ltb, if◌then◌else◌, [], is_empty, strip, ℤ, pos, negsuc,
  parse_int,
}
use docrunr.JobStatus.{Status, status_of, is_terminal, is_processing}

pub record PersistedJob (F : Type 0) : Type 0 where
  pub job_id : Text
  pub status : Status
  pub filename : Text
  pub source_path : Text
  pub markdown_path : Option Text
  pub chunks_path : Option Text
  pub total_tokens : ℤ
  pub total_chars : ℤ
  pub chunk_count : ℤ
  pub duration_seconds : F
  pub error_text : Option Text
  pub received_at : Text
  pub finished_at : Option Text
  pub updated_at : Option Text
  pub mime_type : Text
  pub size_bytes : ℤ
  pub priority : ℤ

-- A value of an event. `none_value` is also what `get` gives for a missing key, and `other_value`
-- holds the `str` of a value of another type.
pub data Value (F : Type 0) : Type 0 where
  none_value : Value F
  bool_value : Bool → Value F
  int_value : ℤ → Value F
  float_value : F → Value F
  str_value : Text → Value F
  other_value : Text → Value F

-- The keys of an event that the store reads.
pub record Event (F : Type 0) : Type 0 where
  pub job_id : Value F
  pub status : Value F
  pub filename : Value F
  pub source_path : Value F
  pub markdown_path : Value F
  pub chunks_path : Value F
  pub total_tokens : Value F
  pub total_chars : Value F
  pub chunk_count : Value F
  pub duration_seconds : Value F
  pub error_text : Value F
  pub received_at : Value F
  pub finished_at : Value F
  pub updated_at : Value F
  pub mime_type : Value F
  pub size_bytes : Value F
  pub priority : Value F

-- What Python does with floats: `int(x)`, `float(i)`, `float(text)` and `str(x)`.
pub record Floats (F : Type 0) : Type 0 where
  pub zero_float : F
  pub add_float : F → F → F
  pub truncate : F → ℤ
  pub of_int : ℤ → F
  pub parse_float : Text → Option F
  pub print_float : F → Text

abbrev pub int_of_bool : Bool → ℤ
int_of_bool b = if b then pos 1 else pos 0

abbrev pub or_zero : Option ℤ → ℤ
or_zero none = pos 0
or_zero (some n) = n

abbrev pub or_text : Option Text → Text → Text
or_text none default = default
or_text (some text) default = text

-- `stripped if stripped else None`
abbrev pub non_empty : Text → Option Text
non_empty text = if is_empty text then none else some text

module _ {F : Type 0} (floats : Floats F) (print_int : ℤ → Text) where
  unfoldable pub as_non_empty_str : Value F → Text → Text
  unfolding strip
  as_non_empty_str (str_value text) default = or_text (non_empty (strip text)) default
  as_non_empty_str _ default = default

  -- `str(value)` of a value that is neither `None` nor a string
  unfoldable pub print_value : Value F → Text
  print_value none_value = codes "None"
  print_value (bool_value b) = if b then codes "True" else codes "False"
  print_value (int_value n) = print_int n
  print_value (float_value x) = floats.print_float x
  print_value (str_value text) = text
  print_value (other_value text) = text

  unfoldable pub as_optional_str : Value F → Option Text
  unfolding strip print_value
  as_optional_str none_value = none
  as_optional_str (str_value text) = non_empty (strip text)
  as_optional_str value = some (print_value value)

  unfoldable pub as_mime_type : Value F → Text
  unfolding strip print_value
  as_mime_type none_value = []
  as_mime_type (str_value text) = strip text
  as_mime_type value = strip (print_value value)

  unfoldable pub as_int : Value F → ℤ
  unfolding parse_int
  as_int none_value = or_zero (parse_int (codes "None"))
  as_int (bool_value b) = int_of_bool b
  as_int (int_value n) = n
  as_int (float_value x) = floats.truncate x
  as_int (str_value text) = or_zero (parse_int text)
  as_int (other_value text) = or_zero (parse_int text)

  or_zero_float : Option F → F
  or_zero_float none = floats.zero_float
  or_zero_float (some x) = x

  unfoldable pub as_float : Value F → F
  unfolding or_zero_float
  as_float none_value = or_zero_float (floats.parse_float (codes "None"))
  as_float (bool_value b) = floats.of_int (int_of_bool b)
  as_float (int_value n) = floats.of_int n
  as_float (float_value x) = x
  as_float (str_value text) = or_zero_float (floats.parse_float text)
  as_float (other_value text) = or_zero_float (floats.parse_float text)

  -- `max(0, min(255, p))`
  pub clamp_priority : ℤ → ℤ
  clamp_priority (pos n) = pos (if ltb 255 n then 255 else n)
  clamp_priority (negsuc n) = pos 0

  unfoldable pub as_job_priority : Value F → ℤ
  unfolding as_int clamp_priority
  as_job_priority value = clamp_priority (as_int value)

  -- `received_at` and `finished_at` of the row, from the status and the clock.
  unfoldable pub received_time : Status → Option Text → Option Text → Text → Text
  received_time status received_raw finished_at now =
      if is_processing status
      then or_text received_raw now
      else or_text received_raw (or_text finished_at now)

  unfoldable pub finished_time : Status → Option Text → Text → Option Text
  unfolding is_terminal
  finished_time status finished_at now =
      if is_processing status
      then none
      else if is_terminal status
      then some (or_text finished_at now)
      else finished_at

  unfoldable pub event_to_job : Text → Event F → PersistedJob F
  unfolding as_non_empty_str as_optional_str as_int as_float as_mime_type as_job_priority
      received_time finished_time status_of
  event_to_job now event =
      let status = status_of (as_non_empty_str event.status (codes "unknown")) in
      let finished_at = as_optional_str event.finished_at in
      record {
        job_id = as_non_empty_str event.job_id (codes "unknown");
        status = status;
        filename = as_non_empty_str event.filename (codes "unknown");
        source_path = as_non_empty_str event.source_path (codes "unknown");
        markdown_path = as_optional_str event.markdown_path;
        chunks_path = as_optional_str event.chunks_path;
        total_tokens = as_int event.total_tokens;
        total_chars = as_int event.total_chars;
        chunk_count = as_int event.chunk_count;
        duration_seconds = as_float event.duration_seconds;
        error_text = as_optional_str event.error_text;
        received_at = received_time status (as_optional_str event.received_at) finished_at now;
        finished_at = finished_time status finished_at now;
        updated_at = as_optional_str event.updated_at;
        mime_type = as_mime_type event.mime_type;
        size_bytes = as_int event.size_bytes;
        priority = as_job_priority event.priority;
      }

  -- `payload.setdefault(key, value)`: the key is there unless `get` gives `None` for want of it.
  -- An event of the program never holds `None` under these keys.
  unfoldable pub set_default : Value F → Text → Value F
  set_default none_value text = str_value text
  set_default value text = value

  -- What `enqueue_job` puts on the queue.
  unfoldable pub stamp_event : Text → Event F → Event F
  unfolding as_non_empty_str set_default status_of
  stamp_event now event =
      if is_processing (status_of (as_non_empty_str event.status []))
      then record event {
        updated_at = set_default event.updated_at now;
        received_at = set_default event.received_at now;
      }
      else record event {
        updated_at = set_default event.updated_at now;
        finished_at = set_default event.finished_at now;
      }
