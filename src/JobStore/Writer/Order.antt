-- ===== src/JobStore/Writer/Order.antt =====
-- The writer thread neither loses, doubles nor reorders an event.
use docrunr.Base.{
  ℕ, ◌≤◌, ◌<◌, ◌≡◌, refl, List, [], ◌∷◌, ◌++◌, append-nil, append_assoc, arith, length,
  length-append, ltb, leb, All, All-append, Bool-cases, inl, inr, ◌∙◌, ap, sym,
}
use docrunr.JobStore.Writer.{
  Poll, event, stop_signal, empty_queue, Place, waiting, filling, draining, done, Writer,
  batch_size_of, new_writer, flush, fill, take_waiting, take_filling, take_draining, step_at, step,
  run, taken_at, taken, concat, contents,
}

-- Nothing is held at `get` and after the end, and else less than a batch.
abbrev FitsPlace : ℕ → Place → ℕ → Type 0
FitsPlace batch_size waiting n = n ≡ 0
FitsPlace batch_size filling n = n < batch_size_of batch_size
FitsPlace batch_size draining n = n < batch_size_of batch_size
FitsPlace batch_size done n = n ≡ 0

batch_size_pos : (batch_size : ℕ) → 1 ≤ batch_size_of batch_size
batch_size_pos batch_size = ground arith

module _ {ℓ} {E : Type ℓ} (batch_size : ℕ) where
  concat-append : (xs ys : List (List E)) → concat (xs ++ ys) ≡ concat xs ++ concat ys
  concat-append [] ys = refl
  concat-append (x ∷ xs) ys = rw (concat-append xs ys, append_assoc)

  contents-flush : (place : Place) (w : Writer E) → contents (flush batch_size place w) ≡ contents w
  unfolding flush
  contents-flush place w = go w.held
    where
      go :
          (held : List E)
          → concat (elim held [ [] ↦ w.flushed | e ∷ es ↦ w.flushed ++ (e ∷ es) ∷ [] ]) ++ []
            ≡ concat w.flushed ++ held
      go [] = refl
      go (e ∷ es) = rw (concat-append, append-nil, append-nil)

  contents-fill : (w : Writer E) → contents (fill batch_size w) ≡ contents w
  unfolding fill
  contents-fill w = elim (Bool-cases (ltb (length w.held) (batch_size_of batch_size))) [
    | inl room ↦ rw room
    | inr full ↦ rw full (contents-flush waiting w)
  ]

  -- A batch that is written has one to `batch_size` events.
  abbrev pub IsBatch : List E → Type 0
  IsBatch es = (1 ≤ length es) × (length es ≤ batch_size_of batch_size)

  record IsSound (w : Writer E) : Type ℓ where
    fits : FitsPlace batch_size w.place (length w.held)
    batches : All IsBatch w.flushed

  flush-IsSound :
      (place : Place) (w : Writer E)
      → FitsPlace batch_size place 0
      → length w.held ≤ batch_size_of batch_size
      → All IsBatch w.flushed
      → IsSound (flush batch_size place w)
  unfolding flush
  flush-IsSound place w f small h = record { fits = f; batches = go w.held small }
    where
      go :
          (held : List E)
          → length held ≤ batch_size_of batch_size
          → All IsBatch (elim held [ [] ↦ w.flushed | e ∷ es ↦ w.flushed ++ (e ∷ es) ∷ [] ])
      go [] small = h
      go (e ∷ es) small = All-append IsBatch w.flushed _ h ((omega arith, small), tt)

  fill-IsSound :
      (w : Writer E)
      → length w.held ≤ batch_size_of batch_size
      → All IsBatch w.flushed
      → IsSound (fill batch_size w)
  unfolding fill
  fill-IsSound w small h = elim (Bool-cases (ltb (length w.held) (batch_size_of batch_size))) [
    | inl room ↦ rw room (record { fits = ground arith; batches = h })
    | inr full ↦ rw full (flush-IsSound waiting w refl small h)
  ]

  step_at-IsSound :
      (place : Place) (poll : Poll E) (w : Writer E)
      → FitsPlace batch_size place (length w.held)
      → w.place ≡ place
      → All IsBatch w.flushed
      → IsSound (step_at batch_size place poll w)
  unfolding step_at take_waiting take_filling take_draining
  step_at-IsSound waiting (event e) w f at h =
      fill-IsSound (record w { held = e ∷ [] }) (batch_size_pos batch_size) h
  step_at-IsSound waiting stop_signal w f at h = record {
    fits = (batch_size_pos batch_size);
    batches = h;
  }
  step_at-IsSound waiting empty_queue w f at h = record { fits = rw at f; batches = h }
  step_at-IsSound filling (event e) w f at h =
      fill-IsSound (record w { held = w.held ++ e ∷ [] })
        (omega (arith, length-append w.held (e ∷ []))) h
  step_at-IsSound filling stop_signal w f at h =
      flush-IsSound draining w (batch_size_pos batch_size) (omega arith) h
  step_at-IsSound filling empty_queue w f at h = flush-IsSound waiting w refl (omega arith) h
  step_at-IsSound draining (event e) w f at h =
      let grown = length-append w.held (e ∷ []) in
      elim (Bool-cases (leb (batch_size_of batch_size) (length (w.held ++ e ∷ [])))) [
        | inl full ↦ rw full (
            flush-IsSound draining (record w { held = w.held ++ e ∷ [] })
              (batch_size_pos batch_size) (omega (arith, grown)) h)
        | inr room ↦ rw room (record { fits = rw at (ground arith); batches = h })
      ]
  step_at-IsSound draining stop_signal w f at h = record { fits = rw at f; batches = h }
  step_at-IsSound draining empty_queue w f at h = flush-IsSound done w refl (omega arith) h
  step_at-IsSound done poll w f at h = record { fits = rw at f; batches = h }

  step-IsSound : (poll : Poll E) (w : Writer E) → IsSound w → IsSound (step batch_size poll w)
  unfolding step
  step-IsSound poll w h = step_at-IsSound w.place poll w h.fits refl h.batches

  held_none : (w : Writer E) → length w.held ≡ 0 → contents w ≡ concat w.flushed
  held_none w h = go w.held h
    where
      go : (held : List E) → length held ≡ 0 → concat w.flushed ++ held ≡ concat w.flushed
      go [] h = append-nil (concat w.flushed)
      go (e ∷ es) h = absurd (omega arith)

  contents-step_at :
      (place : Place) (poll : Poll E) (w : Writer E)
      → FitsPlace batch_size place (length w.held)
      → contents (step_at batch_size place poll w) ≡ contents w ++ taken_at place poll
  unfolding step_at take_waiting take_filling take_draining
  contents-step_at waiting (event e) w f =
      contents-fill (record w { held = e ∷ [] }) ∙ ap (λ es. es ++ e ∷ []) (sym (held_none w f))
  contents-step_at waiting stop_signal w f = rw (append-nil, held_none w f, append-nil)
  contents-step_at waiting empty_queue w f = rw append-nil
  contents-step_at filling (event e) w f =
      contents-fill (record w { held = w.held ++ e ∷ [] })
      ∙ sym (append_assoc (concat w.flushed) w.held (e ∷ []))
  contents-step_at filling stop_signal w f = contents-flush draining w ∙ sym (append-nil _)
  contents-step_at filling empty_queue w f = contents-flush waiting w ∙ sym (append-nil _)
  contents-step_at draining (event e) w f =
      elim (Bool-cases (leb (batch_size_of batch_size) (length (w.held ++ e ∷ [])))) [
        | inl full ↦ rw full (
            contents-flush draining (record w { held = w.held ++ e ∷ [] })
            ∙ sym (append_assoc (concat w.flushed) w.held (e ∷ [])))
        | inr room ↦ rw room (sym (append_assoc (concat w.flushed) w.held (e ∷ [])))
      ]
  contents-step_at draining stop_signal w f = rw append-nil
  contents-step_at draining empty_queue w f = contents-flush done w ∙ sym (append-nil _)
  contents-step_at done poll w f = sym (append-nil _)

  run-IsSound :
      (polls : List (Poll E)) (w : Writer E) → IsSound w → IsSound (run batch_size polls w)
  unfolding run
  run-IsSound [] w h = h
  run-IsSound (p ∷ polls) w h = run-IsSound polls (step batch_size p w) (step-IsSound p w h)

  contents-run :
      (polls : List (Poll E)) (w : Writer E)
      → IsSound w
      → contents (run batch_size polls w) ≡ contents w ++ taken batch_size polls w
  unfolding run step
  contents-run [] w h = sym (append-nil (contents w))
  contents-run (p ∷ polls) w h =
      contents-run polls (step batch_size p w) (step-IsSound p w h)
      ∙ ap (λ es. es ++ taken batch_size polls (step batch_size p w))
          (contents-step_at w.place p w h.fits)
      ∙ append_assoc (contents w) (taken_at w.place p)
          (taken batch_size polls (step batch_size p w))

  new_writer-IsSound : IsSound (new_writer batch_size)
  new_writer-IsSound = record { fits = refl; batches = tt }

  -- Whatever the queue answers, the batches that have been handed to `_flush_batch` and then what
  -- is held are, in order, the events that were taken from the queue, and each batch has at least
  -- one and at most `batch_size` events.
  pub run-keeps :
      (polls : List (Poll E))
      → let w = run batch_size polls (new_writer batch_size) in
        (concat w.flushed ++ w.held ≡ taken batch_size polls (new_writer batch_size))
        × All IsBatch w.flushed
  run-keeps polls = (
    contents-run polls (new_writer batch_size) new_writer-IsSound,
    (run-IsSound polls (new_writer batch_size) new_writer-IsSound).batches,
  )

  run-append :
      (ps qs : List (Poll E)) (w : Writer E)
      → run batch_size (ps ++ qs) w ≡ run batch_size qs (run batch_size ps w)
  unfolding run
  run-append [] qs w = refl
  run-append (p ∷ ps) qs w = run-append ps qs (step batch_size p w)

  run-stop : (w : Writer E) → (run batch_size (stop_signal ∷ empty_queue ∷ []) w).place ≡ done
  unfolding run step step_at take_waiting take_filling take_draining flush
  run-stop w = go w w.place refl
    where
      go :
          (w : Writer E) (place : Place)
          → w.place ≡ place
          → (run batch_size (stop_signal ∷ empty_queue ∷ []) w).place ≡ done
      go w waiting e = rw (e, step_at) refl
      go w filling e = rw (e, step_at) refl
      go w draining e = rw (e, step_at) refl
      go w done e = rw (e, step_at) refl

  -- After any answers of the queue, a stop signal with an empty queue behind it ends the loop, and
  -- then every event that was taken from the queue has been handed to `_flush_batch`, in order.
  pub stop_writes_all :
      (polls : List (Poll E))
      → let w = run batch_size (polls ++ stop_signal ∷ empty_queue ∷ []) (new_writer batch_size) in
        (w.place ≡ done)
        × (concat w.flushed
            ≡ taken batch_size (polls ++ stop_signal ∷ empty_queue ∷ []) (new_writer batch_size))
  stop_writes_all polls =
      let all = polls ++ stop_signal ∷ empty_queue ∷ [] in
      let w = run batch_size all (new_writer batch_size) in
      let ended : w.place ≡ done =
        rw (run-append polls (stop_signal ∷ empty_queue ∷ []) (new_writer batch_size))
          (run-stop (run batch_size polls (new_writer batch_size))) in
      let sound = run-IsSound all (new_writer batch_size) new_writer-IsSound in
      (
        ended,
        sym (held_none w (ground (arith, sound.fits)))
            ∙ contents-run all (new_writer batch_size) new_writer-IsSound,
      )
