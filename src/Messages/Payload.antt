-- ===== src/Messages/Payload.antt =====
-- `job_payload_dict` of runtime/src/docrunr_runtime/messages.py, by the keys that the worker reads.
-- `none` stands for `InvalidJobPriorityError`.
use docrunr.Base.{ℕ, Option, none, some, [], ◌∷◌, Text, pos}
use docrunr.JobStore.Event.{Value, none_value, int_value, str_value}
use docrunr.Messages.Priority.{validate_extraction_job_priority_value}
use docrunr.Handler.Request.{Message, object_options}

module _ {F : Type 0} where
  -- `if llm_profile: payload["llm_profile"] = llm_profile`
  abbrev pub profile_value : Text → Value F
  profile_value [] = none_value
  profile_value (c ∷ cs) = str_value (c ∷ cs)

  -- `options` is an object, empty or not, which the worker does not look into.
  abbrev pub payload_of : Text → Text → Text → ℕ → Text → Message F
  payload_of job_id filename source_path valid llm_profile = record {
    job_id = str_value job_id;
    filename = str_value filename;
    source_path = str_value source_path;
    priority = int_value (pos valid);
    llm_profile = profile_value llm_profile;
    options = object_options;
  }

  unfoldable pub job_payload_dict : Text → Text → Text → Value F → Text → Option (Message F)
  unfolding validate_extraction_job_priority_value
  job_payload_dict job_id filename source_path priority llm_profile =
      elim (validate_extraction_job_priority_value priority) [
        | none ↦ none
        | some valid ↦ some (payload_of job_id filename source_path valid llm_profile)
      ]
