-- ===== src/Messages/Priority/Query.antt =====
-- `parse_upload_priority_query` reads back what a client prints.
use docrunr.Base.{
  ℕ, ◌≡◌, none, some, refl, leb, if◌then◌else◌, decimal, strip-decimal, decimal-nonempty,
  parse_int-decimal,
}
use docrunr.Messages.Priority.{job_queue_max_priority, parse_upload_priority_query}

-- The decimal digits of a number are read back as that number if it is at most 255, and are
-- refused if it is more.
pub parse_upload_priority_query-decimal :
    (n : ℕ)
    → parse_upload_priority_query (some (decimal n))
      ≡ (if leb n job_queue_max_priority then some n else none)
unfolding parse_upload_priority_query
parse_upload_priority_query-decimal n =
    rw (strip-decimal n, decimal-nonempty n, parse_int-decimal n) refl
