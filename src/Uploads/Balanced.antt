-- ===== src/Uploads/Balanced.antt =====
-- What is left in the storage and sent to the queue, against the items of the answer.
pub mod Rounds
pub mod Files
use mathlib.Core.Path.{subst, sym}
use docrunr.Base.{
  ℕ, ◌≤◌, ◌≡◌, refl, ap, ◌∙◌, Bool, true, false, not, ◌&&◌, ◌||◌, Option, none, some, List, [], ◌∷◌,
  ◌++◌, map, append-nil, append_assoc, Text, codes, text_eq, text_eq_refl, is_empty, leb,
  if◌then◌else◌, pos, All, Bool-cases, Option-cases, inl, inr, arith,
}
use docrunr.JobStore.Event.{int_value}
use docrunr.Messages.Names.{
  safe_client_filename, file_suffix_for_upload, is_allowed_upload_suffix, input_relative_path,
  is_member,
}
use docrunr.Messages.Payload.{job_payload_dict, payload_of}
use docrunr.Messages.Priority.{validate_extraction_job_priority_value, job_queue_max_priority}
use docrunr.Handler.Request.{Message}
use docrunr.Uploads.{
  Storing, whole, left_nothing, left_part, Publishing, goes_out, no_connection, no_declaration,
  not_sent, sent_and_raised, Action, wrote, removed, declared, sent, FileCalls, Item, refused,
  queued, Run, publish_message, publish_declared, publish_durable_bytes, published, store_and,
  crash, refuse, publish_upload, store_upload, upload_file, and_then, upload_files,
}

module _ {F : Type 0} where
  abbrev pub removes : Text → List (Action F) → Bool
  removes path [] = false
  removes path (removed p ∷ actions) = text_eq p path || removes path actions
  removes path (_ ∷ actions) = removes path actions

  -- The files that were written and not removed afterwards.
  abbrev pub kept : List (Action F) → List Text
  kept [] = []
  kept (wrote path ∷ actions) = if removes path actions then kept actions else path ∷ kept actions
  kept (_ ∷ actions) = kept actions

  abbrev pub sent_messages : List (Action F) → List (Message F)
  sent_messages [] = []
  sent_messages (sent queue body priority ∷ actions) = body ∷ sent_messages actions
  sent_messages (_ ∷ actions) = sent_messages actions

  -- The messages of the items that are queued.
  abbrev pub item_messages : Text → List Item → List (Message F)
  item_messages profile [] = []
  item_messages profile (queued job_id name path priority ∷ items) =
      payload_of job_id name path priority profile ∷ item_messages profile items
  item_messages profile (refused name reason ∷ items) = item_messages profile items

abbrev pub item_paths : List Item → List Text
item_paths [] = []
item_paths (queued job_id name path priority ∷ items) = path ∷ item_paths items
item_paths (refused name reason ∷ items) = item_paths items

abbrev pub item_name : Item → Text
item_name (refused name reason) = name
item_name (queued job_id name path priority) = name

-- A call that fails leaves nothing: a write that raises leaves no file, a stored file is removed
-- when it is told to, and a publication that raises has not been sent.
abbrev pub is_clean_publishing : Publishing → Bool
is_clean_publishing sent_and_raised = false
is_clean_publishing _ = true

abbrev pub is_clean_storing : Storing → Bool
is_clean_storing left_part = false
is_clean_storing _ = true

abbrev pub AreClean : FileCalls → Type 0
AreClean calls =
    (calls.deletes ≡ true)
    × (is_clean_publishing calls.publishes ≡ true)
    × (is_clean_storing calls.stores ≡ true)

abbrev pub AllClean : List (Text × List ℕ × FileCalls) → Type 0
AllClean [] = Unit
AllClean ((filename, content, calls) ∷ files) = AreClean calls × AllClean files

abbrev pub path_of : (Text → Text) → Text → FileCalls → Text
path_of lower filename calls =
    input_relative_path lower calls.job_id (file_suffix_for_upload lower filename) calls.when

abbrev pub paths_of : (Text → Text) → List (Text × List ℕ × FileCalls) → List Text
paths_of lower [] = []
paths_of lower ((filename, content, calls) ∷ files) =
    path_of lower filename calls ∷ paths_of lower files

abbrev pub names_of : List (Text × List ℕ × FileCalls) → List Text
names_of [] = []
names_of ((filename, content, calls) ∷ files) = safe_client_filename filename ∷ names_of files

-- Each file has a path of its own, since its id is fresh.
abbrev pub AreFresh : List Text → Type 0
AreFresh [] = Unit
AreFresh (p ∷ ps) = (is_member p ps ≡ false) × AreFresh ps

module _ {F : Type 0} where
  abbrev written : List (Action F) → List Text
  written [] = []
  written (wrote path ∷ actions) = path ∷ written actions
  written (_ ∷ actions) = written actions

  removes-append :
      (p : Text) (xs ys : List (Action F)) → removes p (xs ++ ys) ≡ removes p xs || removes p ys
  removes-append p [] ys = refl
  removes-append p (wrote q ∷ xs) ys = removes-append p xs ys
  removes-append p (removed q ∷ xs) ys = ground (arith, removes-append p xs ys)
  removes-append p (declared q b ∷ xs) ys = removes-append p xs ys
  removes-append p (sent q m o ∷ xs) ys = removes-append p xs ys

  kept-append :
      (xs ys : List (Action F))
      → All (λ p. removes p ys ≡ false) (written xs)
      → kept (xs ++ ys) ≡ kept xs ++ kept ys
  kept-append [] ys h = refl
  kept-append (wrote q ∷ xs) ys h =
      ground (arith, removes-append q xs ys, kept-append xs ys h.1, h.0)
  kept-append (removed q ∷ xs) ys h = kept-append xs ys h
  kept-append (declared q b ∷ xs) ys h = kept-append xs ys h
  kept-append (sent q m o ∷ xs) ys h = kept-append xs ys h

  sent_messages-append :
      (xs ys : List (Action F)) → sent_messages (xs ++ ys) ≡ sent_messages xs ++ sent_messages ys
  sent_messages-append [] ys = refl
  sent_messages-append (wrote q ∷ xs) ys = sent_messages-append xs ys
  sent_messages-append (removed q ∷ xs) ys = sent_messages-append xs ys
  sent_messages-append (declared q b ∷ xs) ys = sent_messages-append xs ys
  sent_messages-append (sent q m o ∷ xs) ys = ap (λ r. m ∷ r) (sent_messages-append xs ys)

  item_messages-append :
      (profile : Text) (xs ys : List Item)
      → item_messages {F = F} profile (xs ++ ys)
        ≡ item_messages profile xs ++ item_messages profile ys
  item_messages-append profile [] ys = refl
  item_messages-append profile (refused n r ∷ xs) ys = item_messages-append profile xs ys
  item_messages-append profile (queued i n p k ∷ xs) ys =
      ap (λ r. payload_of i n p k profile ∷ r) (item_messages-append profile xs ys)

item_paths-append : (xs ys : List Item) → item_paths (xs ++ ys) ≡ item_paths xs ++ item_paths ys
item_paths-append [] ys = refl
item_paths-append (refused n r ∷ xs) ys = item_paths-append xs ys
item_paths-append (queued i n p k ∷ xs) ys = ap (λ r. p ∷ r) (item_paths-append xs ys)
