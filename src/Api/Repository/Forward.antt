-- ===== src/Api/Repository/Forward.antt =====
-- A job never goes back to an earlier state.
use mathlib.Core.Path.{subst}
use docrunr.Base.{
  ℕ, ◌≤◌, ◌≡◌, refl, Bool, true, false, ◌||◌, Option, none, some, List, [], ◌∷◌, ◌++◌, Text,
  text_eq, text_eq_iff, text_eq_refl, ℤ, arith, Bool-cases, inl, inr, if◌then◌else◌,
}
use docrunr.JobStore.Event.{Floats}
use docrunr.Api.Schema.{
  JobState, queued, processing, succeeded, failed, Job, Database, NewJob, ResultPayload, LlmPayload,
}
use docrunr.Api.Repository.{
  has_job, has_item, create_job, without_job, delete_job, update_where, update_job, start_row,
  finish_row, finish_llm_row, apply_lifecycle, apply_extraction_result, apply_llm_result, find_job,
  get_job,
}
use docrunr.Api.Outbox.{mark_published}
use docrunr.Api.Repository.Keeps.{Change, created, deleted, marked, started, extracted, embedded}

-- How far a job is.
abbrev pub rank : JobState → ℕ
rank queued = 0
rank processing = 1
rank succeeded = 2
rank failed = 2

module _ {F : Type 0} where
  -- A job that is there before and after is as far as it was, or further, and keeps its origin.
  abbrev pub Advances : Option (Job F) → Option (Job F) → Type 0
  Advances (some a) (some b) =
      (rank a.state ≤ rank b.state)
      × (a.created_at ≡ b.created_at)
      × (a.source_path ≡ b.source_path)
  Advances _ _ = Unit

  stays : (o : Option (Job F)) → Advances o o
  stays none = tt
  stays (some j) = (ground arith, refl, refl)

  gone : (o : Option (Job F)) → Advances o none
  gone none = tt
  gone (some j) = tt

  create-Advances :
      (id : Text) (new : Job F) (js : List (Job F))
      → Advances (find_job id js) (find_job id (js ++ new ∷ []))
  unfolding find_job
  create-Advances id new [] = tt
  create-Advances id new (j ∷ js) = elim (Bool-cases (text_eq j.job_id id)) [
    | inl found ↦ rw found (stays (some j))
    | inr other ↦ rw other (create-Advances id new js)
  ]

  find_job-without :
      (id gone_id : Text) (js : List (Job F))
      → text_eq gone_id id ≡ true
      → find_job id (without_job gone_id js) ≡ none
  unfolding find_job
  find_job-without id gone_id [] same = refl
  find_job-without id gone_id (j ∷ js) same = ground (
    arith,
    find_job-without id gone_id js same,
    text_eq_iff gone_id id,
    text_eq_iff j.job_id gone_id,
    text_eq_iff j.job_id id,
  )

  delete-Advances :
      (id gone_id : Text) (js : List (Job F))
      → Advances (find_job id js) (find_job id (without_job gone_id js))
  unfolding find_job
  delete-Advances id gone_id [] = tt
  delete-Advances id gone_id (j ∷ js) = elim (Bool-cases (text_eq j.job_id gone_id)) [
    | inl hit ↦ elim (Bool-cases (text_eq j.job_id id)) [
      | inl found ↦
          let same : text_eq gone_id id ≡ true =
            ground
              (arith, text_eq_iff j.job_id gone_id, text_eq_iff j.job_id id, text_eq_refl id) in
          rw (hit, found, find_job-without id gone_id js same) tt
      | inr other ↦ rw (hit, other) (delete-Advances id gone_id js)
    ]
    | inr miss ↦ elim (Bool-cases (text_eq j.job_id id)) [
      | inl found ↦ rw (miss, found) (stays (some j))
      | inr other ↦ rw (miss, other) (delete-Advances id gone_id js)
    ]
  ]

  module _ (f : Job F → Job F) (same_key : (j : Job F) → (f j).job_id ≡ j.job_id)
      (moves : (j : Job F) → Advances (some j) (some (f j))) where
    update-Advances :
        (id key : Text) (js : List (Job F))
        → Advances (find_job id js) (find_job id (update_where key f js))
    unfolding find_job
    update-Advances id key [] = tt
    update-Advances id key (j ∷ js) = elim (Bool-cases (text_eq j.job_id key)) [
      | inl hit ↦ elim (Bool-cases (text_eq j.job_id id)) [
        | inl found ↦ rw (hit, found, same_key j, found) (moves j)
        | inr other ↦ rw (hit, other, same_key j, other) (update-Advances id key js)
      ]
      | inr miss ↦ elim (Bool-cases (text_eq j.job_id id)) [
        | inl found ↦ rw (miss, found) (stays (some j))
        | inr other ↦ rw (miss, other) (update-Advances id key js)
      ]
    ]

  start-moves : (at : Text) (j : Job F) → Advances (some j) (some (start_row at j))
  start-moves at j = ground arith

  finish-moves :
      (at : Text) (p : ResultPayload F) (j : Job F) → Advances (some j) (some (finish_row at p j))
  finish-moves at p j = ground arith

  finish_llm-moves :
      (at : Text) (p : LlmPayload F) (j : Job F) → Advances (some j) (some (finish_llm_row at p j))
  finish_llm-moves at p j = (ground arith, refl, refl)

module _ {F : Type 0} (id : Text) (before : Database F) where
  -- What is left of a job when a transaction ends, and nothing changes when it is rolled back.
  abbrev AdvancesTo : Option (Database F) → Type 0
  AdvancesTo none = Unit
  AdvancesTo (some after) = Advances (get_job id before) (get_job id after)

  landed :
      (o : Option (Database F)) (after : Database F)
      → AdvancesTo o
      → o ≡ some after
      → Advances (get_job id before) (get_job id after)
  landed o after k e = subst AdvancesTo e k

  guarded-AdvancesTo :
      (skipped bound : Bool) (updated : Database F)
      → Advances (get_job id before) (get_job id updated)
      → AdvancesTo (if skipped then some before else if bound then some updated else none)
  guarded-AdvancesTo true bound updated h = stays (get_job id before)
  guarded-AdvancesTo false true updated h = h
  guarded-AdvancesTo false false updated h = tt

  updated-Advances :
      (f : Job F → Job F)
      → ((j : Job F) → (f j).job_id ≡ j.job_id)
      → ((j : Job F) → Advances (some j) (some (f j)))
      → (key : Text) → Advances (get_job id before) (get_job id (update_job key f before))
  unfolding get_job
  updated-Advances f same_key moves key = update-Advances f same_key moves id key before.jobs

  created-AdvancesTo : (new : NewJob) (now : Text) → AdvancesTo (create_job new now before)
  unfolding create_job get_job
  created-AdvancesTo new now =
      elim (Bool-cases (has_job new.job_id before.jobs || has_item new.job_id before.outbox)) [
        | inl taken ↦ rw taken tt
        | inr fresh ↦ rw fresh (create-Advances id _ before.jobs)
      ]

  deleted-Advances :
      (key : Text) → Advances (get_job id before) (get_job id (delete_job key before))
  unfolding delete_job get_job
  deleted-Advances key = elim (Bool-cases (has_job key before.jobs)) [
    | inl found ↦ rw found (delete-Advances id key before.jobs)
    | inr absent ↦ rw absent (stays (find_job id before.jobs))
  ]

module _ {F : Type 0} (floats : Floats F) (print_int : ℤ → Text) where
  -- No operation, with whatever arguments or message, takes a job that stays in the table back to
  -- an earlier state, where succeeded and failed count as one, or changes its creation time or its
  -- source.
  pub Change-Advances :
      (id : Text) (before after : Database F)
      → Change floats print_int before after
      → Advances (get_job id before) (get_job id after)
  unfolding apply_lifecycle apply_extraction_result apply_llm_result mark_published get_job
  Change-Advances id before after (created new now e) =
      landed id before _ after (created-AdvancesTo id before new now) e
  Change-Advances id before after (deleted key) = deleted-Advances id before key
  Change-Advances id before after (marked now key) = stays (get_job id before)
  Change-Advances id before after (started payload now e) =
      landed id before _ after
        (guarded-AdvancesTo id before _ _ _
          (updated-Advances id before _ (λ j. ground arith) (start-moves _) _))
        e
  Change-Advances id before after (extracted payload now e) =
      landed id before _ after
        (guarded-AdvancesTo id before _ _ _
          (updated-Advances id before _ (λ j. refl) (finish-moves now payload) _))
        e
  Change-Advances id before after (embedded payload now e) =
      landed id before _ after
        (guarded-AdvancesTo id before _ _ _
          (updated-Advances id before _ (λ j. refl) (finish_llm-moves now payload) _))
        e
