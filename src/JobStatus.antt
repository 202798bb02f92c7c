-- ===== src/JobStatus.antt =====
-- worker/src/docrunr_worker/job_status.py: the statuses of a job, and what one event adds to the
-- counters. A duration is a float of Python; its type `F` and its 0.0 are parameters.
use docrunr.Base.{
  ℕ, Bool, true, false, ◌&&◌, not, Option, none, some, Text, codes, text_eq, ◌==◌, if◌then◌else◌,
}

-- A status string. `other` holds any string but the three that the program knows.
pub data Status : Type 0 where
  processing ok error : Status
  other : Text → Status

unfoldable pub status_of : Text → Status
unfolding text_eq
status_of text =
    if text_eq text (codes "processing")
    then processing
    else if text_eq text (codes "ok")
    then ok
    else if text_eq text (codes "error")
    then error
    else other text

unfoldable pub is_terminal : Status → Bool
is_terminal processing = false
is_terminal ok = true
is_terminal error = true
is_terminal (other text) = false

-- The tests `status == PROCESSING`, `status == OK` and `status == ERROR`.
abbrev pub is_processing : Status → Bool
is_processing processing = true
is_processing _ = false

abbrev pub is_ok : Status → Bool
is_ok ok = true
is_ok _ = false

abbrev pub is_error : Status → Bool
is_error error = true
is_error _ = false

pub record Effect (F : Type 0) : Type 0 where
  pub ok_delta : ℕ
  pub err_delta : ℕ
  pub duration_delta : F
  pub finished_at : Option Text
  pub new_suppress : ℕ

-- `cur_status is not None and is_terminal(cur_status)`
abbrev pub prior_terminal : Option Status → Bool
prior_terminal none = false
prior_terminal (some status) = is_terminal status

abbrev pub prior_ok : Option Status → Bool
prior_ok none = false
prior_ok (some status) = is_ok status

module _ {F : Type 0} (zero_duration : F) where
  abbrev pub no_effect : ℕ → Effect F
  no_effect suppress = record {
    ok_delta = 0;
    err_delta = 0;
    duration_delta = zero_duration;
    finished_at = none;
    new_suppress = suppress;
  }

  -- `incoming_status.strip()` is made by the callers, since a status is read from its text there.
  unfoldable pub replay_stats_transition : Option Status → ℕ → Status → F → Option Text → Effect F
  unfolding is_terminal
  replay_stats_transition cur_status cur_suppress incoming duration finished_at =
      if is_processing incoming
      then no_effect (if prior_terminal cur_status && prior_ok cur_status then 1 else 0)
      else if is_terminal incoming
      then (if cur_suppress == 1
          then no_effect 0
          else if not (prior_terminal cur_status)
          then (if is_ok incoming
              then record {
                ok_delta = 1;
                err_delta = 0;
                duration_delta = duration;
                finished_at = finished_at;
                new_suppress = 0;
              }
              else if is_error incoming
              then record {
                ok_delta = 0;
                err_delta = 1;
                duration_delta = zero_duration;
                finished_at = finished_at;
                new_suppress = 0;
              }
              else no_effect 0)
          else no_effect cur_suppress)
      else no_effect cur_suppress
