-- ===== src/Consumer/Pending.antt =====
-- The table `_pending_deliveries` of worker/src/docrunr_worker/consumer.py, which holds the
-- deliveries that a process pool works on, and the steps that touch it: `_on_extraction_message` at
-- a concurrency above 1, `_on_future_done` on the threads of the pool, `_finish_future` on the
-- thread of the broker, and `stop` with `_drain_pending_futures`. A future is its number in the
-- order of the submissions. The lock makes each access to the table one step, and a thread may be
-- held up between two of them.
pub mod Once
pub mod Drain
use docrunr.Base.{
  ℕ, zero, suc, ◌+◌, Bool, true, false, not, ◌||◌, ◌&&◌, List, [], ◌∷◌, ◌++◌, ◌==◌, length,
  if◌then◌else◌,
}

-- `looking` has the futures whose `_on_future_done` has seen its delivery in the table and is about to
-- act. `finished` has the futures that `_finish_future` has popped, so that the delivery is completed or
-- goes to the exception's handler, and `dropped` those that `_on_future_done` has popped.
-- `callbacks` are the calls that wait for the thread of the broker.
pub record Pool {ℓ} (D : Type ℓ) : Type ℓ where
  pub next_future : ℕ
  pub pending : List (ℕ × D)
  pub looking : List ℕ
  pub callbacks : List ℕ
  pub finished : List ℕ
  pub dropped : List ℕ
  pub stopping : Bool

-- What `_on_future_done` finds: whether the delivery's channel and the connection are open, and
-- whether `add_callback_threadsafe` returns.
pub record Surroundings : Type 0 where
  pub channel_open : Bool
  pub connection_open : Bool
  pub schedules : Bool

is_looking : ℕ → List ℕ → Bool
is_looking future [] = false
is_looking future (f ∷ looking) = (f == future) || is_looking future looking

leave : ℕ → List ℕ → List ℕ
leave future [] = []
leave future (f ∷ looking) =
    let rest = leave future looking in if f == future then rest else f ∷ rest

module _ {ℓ} {D : Type ℓ} where
  abbrev pub new_pool : Pool D
  new_pool = record {
    next_future = 0;
    pending = [];
    looking = [];
    callbacks = [];
    finished = [];
    dropped = [];
    stopping = false;
  }

  unfoldable pub is_pending : ℕ → List (ℕ × D) → Bool
  is_pending future [] = false
  is_pending future ((f, d) ∷ pending) = (f == future) || is_pending future pending

  -- `_pop_pending_delivery`
  unfoldable pub pop_pending : ℕ → List (ℕ × D) → List (ℕ × D)
  pop_pending future [] = []
  pop_pending future ((f, d) ∷ pending) =
      let rest = pop_pending future pending in if f == future then rest else (f, d) ∷ rest

  -- The executor has taken the job, and its delivery goes into the table.
  unfoldable pub submit : D → Pool D → Pool D
  submit delivery p = record p {
    next_future = suc p.next_future;
    pending = p.pending ++ (p.next_future, delivery) ∷ [];
  }

  -- `raises` says whether the exception's handler raises in turn: the delivery has left the table
  -- then as well, and the exception goes to the caller. The result says whether it does.
  unfoldable pub finish_future : Bool → ℕ → Pool D → Bool × Pool D
  unfolding is_pending pop_pending
  finish_future raises future p =
      if is_pending future p.pending
      then (
        raises,
        record p { pending = pop_pending future p.pending; finished = p.finished ++ future ∷ [] },
      )
      else (false, p)

  -- `_on_future_done` with a delivery that is to be dropped: another thread may have popped it.
  drop_future : ℕ → Pool D → Pool D
  unfolding is_pending pop_pending
  drop_future future p =
      if is_pending future p.pending
      then record p { pending = pop_pending future p.pending; dropped = p.dropped ++ future ∷ [] }
      else p

  -- `_on_future_done` up to its look at the table. `saw_stopping` is what it has read of `_stopping`.
  unfoldable pub look_up : ℕ → Bool → Pool D → Pool D
  unfolding is_pending
  look_up future saw_stopping p =
      if saw_stopping || not (is_pending future p.pending)
      then p
      else record p { looking = p.looking ++ future ∷ [] }

  -- The rest of `_on_future_done`.
  unfoldable pub act : ℕ → Surroundings → Pool D → Pool D
  unfolding is_looking leave drop_future
  act future around p =
      let q : Pool D = record p { looking = leave future p.looking } in
      if not (is_looking future p.looking)
      then p
      else if not around.channel_open || not around.connection_open || not around.schedules
      then drop_future future q
      else record q { callbacks = q.callbacks ++ future ∷ [] }

  -- The thread of the broker runs the callback that waits longest; where it raises, the exception
  -- leaves the consuming loop.
  run_first : Bool → List ℕ → Pool D → Pool D
  unfolding finish_future
  run_first raises [] p = p
  run_first raises (future ∷ callbacks) p =
      (finish_future raises future (record p { callbacks = callbacks })).1

  unfoldable pub run_callback : Bool → Pool D → Pool D
  unfolding run_first
  run_callback raises p = run_first raises p.callbacks p

  -- The inner loop, which an exception of `_finish_future` ends.
  finish_all : (ℕ → Bool) → List (ℕ × D) → Pool D → Bool × Pool D
  unfolding finish_future
  finish_all raises [] p = (false, p)
  finish_all raises ((future, d) ∷ futures) p =
      let done = finish_future (raises future) future p in
      let rest = finish_all raises futures done.1 in if done.0 then done else rest

  -- `_drain_pending_futures`: the rounds of its loop, until the table is empty. The result says
  -- whether it raises.
  unfoldable pub drain_pending_futures : (ℕ → Bool) → ℕ → Pool D → Bool × Pool D
  unfolding finish_all
  drain_pending_futures raises zero p = (false, p)
  drain_pending_futures raises (suc fuel) p = elim p.pending [
    | [] ↦ (false, p)
    | f ∷ futures ↦
        let round = finish_all raises (f ∷ futures) p in
        let rest = drain_pending_futures raises fuel round.1 in if round.0 then round else rest
  ]

  unfoldable pub begin_stop : Pool D → Pool D
  begin_stop p = record p { stopping = true }

  -- What `stop` does to the table, where no other thread steps in between: its calls on the channel,
  -- the executor and the connection are left out. One round empties the table, and the second sees
  -- it.
  unfoldable pub stop : (ℕ → Bool) → Pool D → Bool × Pool D
  unfolding drain_pending_futures begin_stop
  stop raises p = drain_pending_futures raises 2 (begin_stop p)

-- The steps of all threads, in any order. `stop` takes part by `stop_began` and one `drained` for each
-- round of its inner loop; any future may be drained at any time.
pub data Event {ℓ} (D : Type ℓ) : Type ℓ where
  submitted : D → Event D
  looked : ℕ → Bool → Event D
  acted : ℕ → Surroundings → Event D
  ran_callback : Bool → Event D
  stop_began : Event D
  drained : Bool → ℕ → Event D

module _ {ℓ} {D : Type ℓ} where
  unfoldable pub step : Event D → Pool D → Pool D
  unfolding submit look_up act run_callback begin_stop finish_future
  step (submitted delivery) p = submit delivery p
  step (looked future saw_stopping) p = look_up future saw_stopping p
  step (acted future around) p = act future around p
  step (ran_callback raises) p = run_callback raises p
  step stop_began p = begin_stop p
  step (drained raises future) p = (finish_future raises future p).1

  unfoldable pub run_events : List (Event D) → Pool D → Pool D
  unfolding step
  run_events [] p = p
  run_events (e ∷ events) p = run_events events (step e p)
