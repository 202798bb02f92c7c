-- ===== src/Http/History.antt =====
-- The endpoint over a history of requests, from the empty table that the worker starts with.
pub mod Sessions
pub mod Disclosed
use docrunr.Base.{
  ℕ, ◌+◌, ◌≤◌, Option, none, some, List, [], ◌∷◌, Text, Bool, false, leb, if◌then◌else◌,
}
use docrunr.Http.Session
use docrunr.Http.Request.{Request, Response, Decoded}
use docrunr.Http.Server.{handle}
use docrunr.Http.Server.Effects.{seen}

-- When the session of a token ends, as the exchanges tell it, the newest first: a response that
-- signs in starts the session of its token; it, and one that signs out, ends that of the cookie.
abbrev pub live_until : Text → List (Request × Response) → Option ℕ
live_until token [] = none
live_until token ((r, response) ∷ older) = seen r response token (live_until token older)

abbrev pub in_time : ℕ → Option ℕ → Bool
in_time now none = false
in_time now (some ends) = leb now ends

-- The requests, the newest first, come in the order of the clock.
abbrev pub Clock : ℕ → List Request → Type 0
Clock now [] = Unit
Clock now (r ∷ older) = (r.now ≤ now) × Clock r.now older

module _ {F : Type 0} (lower : Text → Text) (decode : List ℕ → Decoded F)
    (digest : Text → Option Text) (ui_password : Text) where
  -- The table behind the requests.
  unfoldable pub after : List Request → Session.Sessions
  after [] = []
  after (r ∷ older) = (handle lower decode digest ui_password r (after older)).1

  abbrev pub answer : Request → List Request → Response
  answer r older = (handle lower decode digest ui_password r (after older)).0

  unfoldable pub exchanges : List Request → List (Request × Response)
  exchanges [] = []
  exchanges (r ∷ older) = (r, answer r older) ∷ exchanges older
