-- ===== src/Messages/Priority.antt =====
-- The priorities of runtime/src/docrunr_runtime/messages.py.
pub mod Query
use docrunr.Base.{
  ℕ, ◌≤◌, ◌≡◌, Bool, true, false, Option, none, some, [], Text, leb, if◌then◌else◌, is_empty, strip,
  ℤ, pos, negsuc, parse_int, arith,
}
use docrunr.JobStore.Event.{Value, none_value, int_value}

abbrev pub job_queue_max_priority : ℕ
job_queue_max_priority = 255

module _ {F : Type 0} where
  -- `none` stands for `InvalidJobPriorityError`. `type(priority) is not int` also refuses booleans.
  unfoldable pub validate_extraction_job_priority_value : Value F → Option ℕ
  validate_extraction_job_priority_value none_value = some 0
  validate_extraction_job_priority_value (int_value (pos n)) =
      if leb n job_queue_max_priority then some n else none
  validate_extraction_job_priority_value _ = none

  -- The argument is `msg.get("priority")`.
  unfoldable pub parse_extraction_job_priority : Value F → Option ℕ
  unfolding validate_extraction_job_priority_value
  parse_extraction_job_priority priority = validate_extraction_job_priority_value priority

  pub validate-le :
      (priority : Value F) {n : ℕ}
      → validate_extraction_job_priority_value priority ≡ some n
      → n ≤ job_queue_max_priority
  unfolding validate_extraction_job_priority_value
  validate-le priority h = ground arith

-- The value that an integer has; the type of floats plays no part.
abbrev int_priority : ℤ → Option ℕ
int_priority n = validate_extraction_job_priority_value {F = ℕ} (int_value n)

parsed_priority : Option ℤ → Option ℕ
unfolding validate_extraction_job_priority_value
parsed_priority none = none
parsed_priority (some value) = int_priority value

unfoldable pub parse_upload_priority_query : Option Text → Option ℕ
unfolding parsed_priority strip parse_int
parse_upload_priority_query none = some 0
parse_upload_priority_query (some raw) =
    if is_empty (strip raw) then some 0 else parsed_priority (parse_int (strip raw))
