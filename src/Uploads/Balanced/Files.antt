-- ===== src/Uploads/Balanced/Files.antt =====
-- All files of an upload.
use mathlib.Core.Path.{subst, sym}
use mathlib.Core.List.{map-append}
use docrunr.Base.{
  ℕ, zero, ◌≡◌, refl, ap, ◌∙◌, false, inl, inr, List, [], ◌∷◌, ◌++◌, map, Text, leb, All,
  Bool-cases, arith,
}
use docrunr.Messages.Names.{is_member}
use docrunr.Messages.Priority.{validate_extraction_job_priority_value, job_queue_max_priority}
use docrunr.Uploads.{
  Action, FileCalls, Run, upload_file, and_then, upload_files, with_calls, ran, process_parts,
  process_upload_request,
}
use docrunr.Uploads.Balanced.{
  removes, kept, sent_messages, item_messages, item_paths, item_name, AllClean, path_of, paths_of,
  names_of, AreFresh, written, removes-append, kept-append, sent_messages-append,
  item_messages-append, item_paths-append,
}
use docrunr.Uploads.Balanced.Rounds.{upload_file-Round}

module _ (F : Type 0) (lower : Text → Text) (jobs_queue : Text) (priority : ℕ)
    (llm_profile : Text) where
  -- One item for each file, under its name; the files that stay in the storage are those of the
  -- queued items, and the messages that were sent are theirs, in order.
  pub record Balanced (names : List Text) (run : Run F) : Type 0 where
    pub one_each : map item_name run.items ≡ names
    pub files : kept run.actions ≡ item_paths run.items
    pub messages : sent_messages run.actions ≡ item_messages llm_profile run.items

  and_then-first :
      (first rest : Run F)
      → (and_then {F = F} lower jobs_queue priority llm_profile first rest).crashed ≡ false
      → first.crashed ≡ false
  unfolding and_then
  and_then-first first rest h = ground arith

  and_then-rest :
      (first rest : Run F)
      → (and_then {F = F} lower jobs_queue priority llm_profile first rest).crashed ≡ false
      → rest.crashed ≡ false
  unfolding and_then
  and_then-rest first rest h = ground arith

  and_then-safe :
      (first rest : Run F)
      → first.crashed ≡ false
      → and_then {F = F} lower jobs_queue priority llm_profile first rest ≡ record {
        items = first.items ++ rest.items;
        actions = first.actions ++ rest.actions;
        crashed = rest.crashed;
      }
  unfolding and_then
  and_then-safe first rest h = ground arith

  all_equal :
      (path : Text) (actions : List (Action F)) (ps : List Text)
      → removes path actions ≡ false
      → All (λ p. p ≡ path) ps
      → All (λ p. removes p actions ≡ false) ps
  all_equal path actions [] h k = tt
  all_equal path actions (p ∷ ps) h k = (rw k.0 h, all_equal path actions ps h k.1)

  abbrev uploads : List (Text × List ℕ × FileCalls) → Run F
  uploads files = upload_files lower jobs_queue priority llm_profile files

  uploads-removals :
      (files : List (Text × List ℕ × FileCalls)) (p : Text)
      → AllClean files
      → (uploads files).crashed ≡ false
      → is_member p (paths_of lower files) ≡ false
      → removes p (uploads files).actions ≡ false
  unfolding upload_files
  uploads-removals [] p clean safe h = refl
  uploads-removals ((filename, content, calls) ∷ files) p clean safe h =
      let first =
        upload_file {F = F} lower jobs_queue priority llm_profile filename content calls in
      let ok = and_then-first first (uploads files) safe in
      let round =
        upload_file-Round lower jobs_queue priority llm_profile filename content calls clean.0 ok in
      let ih =
        uploads-removals files p clean.1 (and_then-rest first (uploads files) safe)
          (ground arith) in
      rw (and_then-safe first (uploads files) ok) (
        removes-append p first.actions (uploads files).actions
        ∙ rw (round.removals p (ground arith), ih) refl)

  uploads-Balanced :
      (files : List (Text × List ℕ × FileCalls))
      → AllClean files
      → AreFresh (paths_of lower files)
      → (uploads files).crashed ≡ false
      → Balanced (names_of files) (uploads files)
  unfolding upload_files
  uploads-Balanced [] clean fresh safe = record { one_each = refl; files = refl; messages = refl }
  uploads-Balanced ((filename, content, calls) ∷ files) clean fresh safe =
      let first =
        upload_file {F = F} lower jobs_queue priority llm_profile filename content calls in
      let path = path_of lower filename calls in
      let ok = and_then-first first (uploads files) safe in
      let safe' = and_then-rest first (uploads files) safe in
      let round =
        upload_file-Round lower jobs_queue priority llm_profile filename content calls clean.0 ok in
      let ih = uploads-Balanced files clean.1 fresh.1 safe' in
      let free = uploads-removals files path clean.1 safe' fresh.0 in
      let untouched =
        all_equal path (uploads files).actions (written first.actions) free round.writes in
      rw (and_then-safe first (uploads files) ok) (record {
        one_each =
            map-append item_name first.items (uploads files).items
            ∙ rw (round.names, ih.one_each) refl;
        files =
            kept-append first.actions (uploads files).actions untouched
            ∙ rw (round.files, ih.files)
                (sym (item_paths-append first.items (uploads files).items));
        messages =
            sent_messages-append first.actions (uploads files).actions
            ∙ rw (round.messages, ih.messages)
                (sym (item_messages-append llm_profile first.items (uploads files).items));
      })

  -- Of an upload whose loop runs to its end, the answer has one item for each file of the form,
  -- under its safe name and in order; the files that stay in the storage are exactly those of the
  -- queued items, and the messages sent are exactly theirs, with their ids and paths. This holds if
  -- the files have paths of their own, no write of a file raises part way and leaves a file behind,
  -- which the loop would not remove, the removal of a stored file succeeds, and no publication
  -- raises behind the sending.
  pub process_upload_request-Balanced :
      (calls : ℕ → FileCalls) (parts : List (Text × List ℕ)) (run : Run F)
      → AllClean (with_calls calls zero parts)
      → AreFresh (paths_of lower (with_calls calls zero parts))
      → process_upload_request lower jobs_queue priority llm_profile calls (inr parts) ≡ ran run
      → run.crashed ≡ false
      → Balanced (names_of (with_calls calls zero parts)) run
  unfolding process_upload_request process_parts validate_extraction_job_priority_value
  process_upload_request-Balanced calls [] run clean fresh e safe =
      elim (Bool-cases (leb priority job_queue_max_priority)) [
        | inl valid ↦ absurd (cc (rw (valid, process_upload_request) at e))
        | inr too_big ↦ absurd (cc (rw (too_big, process_upload_request) at e))
      ]
  process_upload_request-Balanced calls (part ∷ parts) run clean fresh e safe =
      elim (Bool-cases (leb priority job_queue_max_priority)) [
        | inr too_big ↦ absurd (cc (rw (too_big, process_upload_request) at e))
        | inl valid ↦
            let files = with_calls calls zero (part ∷ parts) in
            let same : uploads files ≡ run = cc (rw (valid, process_upload_request) at e) in
            subst (Balanced (names_of files)) same
              (uploads-Balanced files clean fresh (ap (λ r. r.crashed) same ∙ safe))
      ]
