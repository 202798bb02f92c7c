-- ===== src/JobStore/Writer.antt =====
-- `_writer_loop` of worker/src/docrunr_worker/job_store.py as a machine that is driven by what the
-- queue answers. Other threads put events and stop signals on the queue at any time, so that an
-- answer is an item or that the queue is empty, whatever came before; `get(timeout=0.5)` and
-- `get_nowait()` answer alike.
pub mod Order
use docrunr.Base.{
  ℕ, zero, suc, ◌+◌, ◌≤◌, ◌<◌, ◌≡◌, ◌≢◌, refl, Bool, true, false, List, [], ◌∷◌, ◌++◌, append-nil,
  append_assoc, arith, length, length-append, ltb, leb, if◌then◌else◌, max, All, All-append,
  Bool-cases, inl, inr, ◌∙◌, ap, ◌⊎◌,
}

-- An answer of the queue.
pub data Poll {ℓ} (E : Type ℓ) : Type ℓ where
  event : E → Poll E
  stop_signal : Poll E
  empty_queue : Poll E

-- Where the loop stands: at `get`, in the loop that fills a batch, or behind the stop signal in
-- the loop that drains the queue.
pub data Place : Type 0 where
  waiting filling draining done : Place

-- `held` is `batch` or `tail`, and `flushed` the batches given to `_flush_batch`, in order.
pub record Writer {ℓ} (E : Type ℓ) : Type ℓ where
  pub place : Place
  pub held : List E
  pub flushed : List (List E)

-- `max(1, batch_size)`
abbrev pub batch_size_of : ℕ → ℕ
batch_size_of batch_size = if ltb batch_size 1 then 1 else batch_size

module _ {ℓ} {E : Type ℓ} (batch_size : ℕ) where
  abbrev pub new_writer : Writer E
  new_writer = record { place = waiting; held = []; flushed = [] }

  -- `_flush_batch(conn, held)`, which does nothing with an empty batch, and a new `held`.
  flush : Place → Writer E → Writer E
  flush place w = record {
    place = place;
    held = [];
    flushed = elim w.held [ [] ↦ w.flushed | e ∷ es ↦ w.flushed ++ (e ∷ es) ∷ [] ];
  }

  -- `while len(batch) < batch_size`: the loop that fills goes on, or the batch is flushed.
  fill : Writer E → Writer E
  unfolding flush
  fill w =
      if ltb (length w.held) (batch_size_of batch_size)
      then record w { place = filling }
      else flush waiting w

  take_waiting : Poll E → Writer E → Writer E
  unfolding fill
  take_waiting (event e) w = fill (record w { held = e ∷ [] })
  take_waiting stop_signal w = record w { place = draining; held = [] }
  take_waiting empty_queue w = w

  take_filling : Poll E → Writer E → Writer E
  unfolding fill
  take_filling (event e) w = fill (record w { held = w.held ++ e ∷ [] })
  take_filling stop_signal w = flush draining w
  take_filling empty_queue w = flush waiting w

  -- `if len(tail) >= batch_size` after the append.
  take_draining : Poll E → Writer E → Writer E
  unfolding flush
  take_draining (event e) w =
      let w' = record w { held = w.held ++ e ∷ [] } in
      if leb (batch_size_of batch_size) (length w'.held) then flush draining w' else w'
  take_draining stop_signal w = w
  take_draining empty_queue w = flush done w

  step_at : Place → Poll E → Writer E → Writer E
  unfolding take_waiting take_filling take_draining
  step_at waiting poll w = take_waiting poll w
  step_at filling poll w = take_filling poll w
  step_at draining poll w = take_draining poll w
  step_at done poll w = w

  pub step : Poll E → Writer E → Writer E
  unfolding step_at
  step poll w = step_at w.place poll w

  unfoldable pub run : List (Poll E) → Writer E → Writer E
  unfolding step
  run [] w = w
  run (p ∷ polls) w = run polls (step p w)

-- What the loop took from the queue, until it ended.
abbrev pub taken_at {ℓ} : {E : Type ℓ} → Place → Poll E → List E
taken_at done poll = []
taken_at place (event e) = e ∷ []
taken_at place _ = []

module _ {ℓ} {E : Type ℓ} (batch_size : ℕ) where
  abbrev pub taken : List (Poll E) → Writer E → List E
  taken [] w = []
  taken (p ∷ polls) w = taken_at w.place p ++ taken polls (step batch_size p w)

module _ {ℓ} {E : Type ℓ} where
  abbrev pub concat : List (List E) → List E
  concat [] = []
  concat (es ∷ ess) = es ++ concat ess

  -- All that the loop has got: what it has given to `_flush_batch` and then what it holds.
  abbrev pub contents : Writer E → List E
  contents w = concat w.flushed ++ w.held
