-- ===== src/Http/History/Sessions.antt =====
-- The table of sessions against what the exchanges tell.
use docrunr.Base.{
  ℕ, ◌+◌, ◌≤◌, ◌≡◌, refl, false, Option, none, some, ◌⊎◌, List, [], ◌∷◌, Text, text_eq, is_empty,
  Bool-cases, inl, inr, arith,
}
use docrunr.Http.Session.{session_ttl, find_session, session_valid, check_found}
use docrunr.Http.Request.{Request, Response, logged_in, logged_out, Decoded}
use docrunr.Http.Server.{request_session_token}
use docrunr.Http.Server.Effects.{cookie_is, seen, Kept, same, lapsed, handle-Tells}
use docrunr.Http.History.{live_until, in_time, Clock, after, answer, exchanges}

-- A request ends a session, starts one at a time of its own, or leaves it.
pub seen-cases :
    (r : Request) (response : Response) (t : Text)
    → ((e : Option ℕ) × ((before : Option ℕ) → seen r response t before ≡ e))
      ⊎ ((before : Option ℕ) → seen r response t before ≡ before)
seen-cases r (logged_in u) t = elim (Bool-cases (text_eq u t)) [
  | inl given ↦ inl (some (r.now + session_ttl), λ before. rw given refl)
  | inr other ↦ elim (Bool-cases (cookie_is (request_session_token r) t)) [
    | inl ended ↦ inl (none, λ before. rw (other, ended) refl)
    | inr left ↦ inr (λ before. rw (other, left) refl)
  ]
]
seen-cases r logged_out t = elim (Bool-cases (cookie_is (request_session_token r) t)) [
  | inl ended ↦ inl (none, λ before. rw ended refl)
  | inr left ↦ inr (λ before. rw left refl)
]
seen-cases r _ t = inr (λ before. refl)

Kept-later : (a b : ℕ) (x y : Option ℕ) → a ≤ b → Kept a x y → Kept b x y
Kept-later a b x y h (same e) = same e
Kept-later a b x y h (lapsed exp e over gone) = lapsed exp e (omega arith) gone

Kept-trans : (now : ℕ) (x y z : Option ℕ) → Kept now x y → Kept now y z → Kept now x z
Kept-trans now x y z (same e) k = rw (← e) k
Kept-trans now x y z (lapsed exp e over gone) (same f) = lapsed exp e over (cc)
Kept-trans now x y z (lapsed exp e over gone) (lapsed exp' f over' gone') = absurd (cc)

Kept-seen :
    (r : Request) (response : Response) (t : Text) (now : ℕ) (x y : Option ℕ)
    → Kept now x y
    → Kept now (seen r response t x) (seen r response t y)
Kept-seen r response t now x y k = elim (seen-cases r response t) [
  | inl (e, h) ↦ rw (h x, h y) (same refl)
  | inr h ↦ rw (h x, h y) k
]

module _ {F : Type 0} (lower : Text → Text) (decode : List ℕ → Decoded F)
    (digest : Text → Option Text) (ui_password : Text) (t : Text) where
  abbrev told : List Request → Option ℕ
  told rs = live_until t (exchanges lower decode digest ui_password rs)

  abbrev held : List Request → Option ℕ
  held rs = find_session t (after lower decode digest ui_password rs)

  held-Kept : (now : ℕ) (rs : List Request) → Clock now rs → Kept now (told rs) (held rs)
  unfolding exchanges after find_session
  held-Kept now [] h = same refl
  held-Kept now (r ∷ older) h = Kept-later r.now now _ _ h.0 (
      Kept-trans r.now _ _ _
        (Kept-seen r (answer lower decode digest ui_password r older) t r.now _ _
          (held-Kept r.now older h.1))
        (handle-Tells lower decode digest ui_password r
          (after lower decode digest ui_password older) t))

  -- With a clock that never goes back, a session is valid exactly if the exchanges so far tell that
  -- it was started, and neither ended nor run out, whatever was deleted on the way.
  pub session_valid-live_until :
      (now : ℕ) (rs : List Request)
      → Clock now rs
      → is_empty t ≡ false
      → (session_valid (some t) now (after lower decode digest ui_password rs)).0
        ≡ in_time now (live_until t (exchanges lower decode digest ui_password rs))
  unfolding session_valid check_found
  session_valid-live_until now rs h filled = rw filled (go (told rs) (held rs) (held-Kept now rs h))
    where
      go :
          (x y : Option ℕ)
          → Kept now x y
          → (check_found t now y (after lower decode digest ui_password rs)).0 ≡ in_time now x
      go x none (same e) = rw (← e) refl
      go x (some ends) (same e) = rw (← e) (ground arith)
      go x y (lapsed exp e over gone) = rw (e, gone) (ground arith)
