-- ===== src/Http/History/Disclosed.antt =====
-- What stands behind a response that shows jobs or artifacts, or takes an upload.
use docrunr.Base.{
  ℕ, ◌+◌, ◌≤◌, ◌≡◌, sym, ◌∙◌, true, false, Option, some, ◌⊎◌, List, [], ◌∷◌, Text, text_eq,
  text_eq_iff, is_empty, Bool-cases, inl, inr, arith,
}
use docrunr.Http.Session.{session_ttl, find_session}
use docrunr.Http.Request.{Request, Response, logged_in, logged_out, Decoded}
use docrunr.Http.Pages.Quiet.{discloses}
use docrunr.Http.Server.{request_session_token}
use docrunr.Http.Server.Effects.{seen, Kept, same, lapsed, handle-Tells}
use docrunr.Http.Server.Guarded.{handle-HasSession}
use docrunr.Http.Server.Login.{SignsIn, handle-SignsIn}
use docrunr.Http.History.{live_until, after, answer, exchanges}
use docrunr.Http.History.Sessions.{seen-cases}

-- An entry that is there was there before a deletion.
seen_back :
    (r : Request) (response : Response) (t : Text) (x y : Option ℕ)
    → ((e : ℕ) → y ≡ some e → x ≡ some e)
    → (e : ℕ) → seen r response t y ≡ some e
    → seen r response t x ≡ some e
seen_back r response t x y h e k = elim (seen-cases r response t) [
  | inl (f, const) ↦ const x ∙ sym (const y) ∙ k
  | inr kept ↦ kept x ∙ h e (sym (kept y) ∙ k)
]

Kept-back : {now : ℕ} {x y : Option ℕ} → Kept now x y → (e : ℕ) → y ≡ some e → x ≡ some e
Kept-back (same p) e h = sym p ∙ h
Kept-back (lapsed exp p over gone) e h = absurd (cc)

module _ {F : Type 0} (lower : Text → Text) (decode : List ℕ → Decoded F)
    (digest : Text → Option Text) (ui_password : Text) where
  -- One of the requests signed in, with the password, to the session of `t` that ends at `ends`.
  abbrev pub SignedIn : Text → ℕ → List Request → Type 0
  SignedIn t ends [] = ⊥
  SignedIn t ends (r ∷ older) =
      (SignsIn lower decode digest ui_password r t × (ends ≡ r.now + session_ttl))
      ⊎ SignedIn t ends older

  -- The cookie of `r` names a session that was started with the password, was not ended since, and
  -- has not run out.
  pub record InSession (r : Request) (older : List Request) : Type 0 where
    pub token : Text
    pub cookie : request_session_token r ≡ some token
    pub ends : ℕ
    pub live : live_until token (exchanges lower decode digest ui_password older) ≡ some ends
    pub in_time : r.now ≤ ends
    pub signed_in : SignedIn token ends older

  held→told :
      (t : Text) (rs : List Request) (e : ℕ)
      → find_session t (after lower decode digest ui_password rs) ≡ some e
      → live_until t (exchanges lower decode digest ui_password rs) ≡ some e
  unfolding after exchanges find_session
  held→told t [] e h = absurd (cc)
  held→told t (r ∷ older) e h =
      seen_back r (answer lower decode digest ui_password r older) t _ _ (held→told t older) e (
        Kept-back
          (handle-Tells lower decode digest ui_password r
            (after lower decode digest ui_password older) t)
          e h)

  told→SignedIn :
      (t : Text) (rs : List Request) (e : ℕ)
      → live_until t (exchanges lower decode digest ui_password rs) ≡ some e
      → SignedIn t e rs
  unfolding exchanges
  told→SignedIn t [] e h = absurd (cc)
  told→SignedIn t (r ∷ older) e h =
      go (answer lower decode digest ui_password r older)
        (λ u.
          handle-SignsIn lower decode digest ui_password r
            (after lower decode digest ui_password older) u)
        h (told→SignedIn t older e)
    where
      go :
          (response : Response)
          → ((u : Text) → response ≡ logged_in u → SignsIn lower decode digest ui_password r u)
          → seen r response t (live_until t (exchanges lower decode digest ui_password older))
            ≡ some e
          → (live_until t (exchanges lower decode digest ui_password older) ≡ some e
              → SignedIn t e older)
          → SignedIn t e (r ∷ older)
      go (logged_in u) signs h ih = elim (Bool-cases (text_eq u t)) [
        | inl given ↦ inl (signs t (ground (arith, text_eq_iff u t)), ground arith)
        | inr other ↦ inr (ih (ground arith))
      ]
      go logged_out signs h ih = inr (ih (ground arith))
      go _ signs h ih = inr (ih h)

  -- After any history of requests, if a password is set and a response shows jobs or an artifact or
  -- takes an upload, then the cookie of its request names a session: an earlier request signed in
  -- with the password, was given that token, no exchange since ended the session, and it has not
  -- run out.
  pub disclosed-InSession :
      (r : Request) (older : List Request)
      → is_empty ui_password ≡ false
      → discloses (answer lower decode digest ui_password r older) ≡ true
      → InSession r older
  disclosed-InSession r older gated h =
      let s =
        handle-HasSession lower decode digest ui_password gated r
          (after lower decode digest ui_password older) h in
      let live = held→told s.token older s.ends s.found in
      record {
        token = s.token;
        cookie = s.cookie;
        ends = s.ends;
        live = live;
        in_time = s.in_time;
        signed_in = told→SignedIn s.token older s.ends live;
      }
