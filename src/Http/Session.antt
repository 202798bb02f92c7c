-- ===== src/Http/Session.antt =====
-- The sessions of worker/src/docrunr_worker/health.py: `_SESSIONS` and the functions on it. A time
-- counts microseconds; what floats round is left out.
use docrunr.Base.{
  ℕ, ◌+◌, ◌≡◌, Bool, true, false, Option, none, some, List, [], ◌∷◌, ◌++◌, Text, codes, text_eq,
  text_eq_iff, starts_with, strip, is_empty, length, drop, ltb, ◌==◌, if◌then◌else◌, arith,
}

abbrev pub Sessions : Type 0
Sessions = List (Text × ℕ)

-- `_SESSION_TTL_SECONDS`
abbrev pub session_ttl : ℕ
session_ttl = 43200000000

abbrev pub session_cookie_name : Text
session_cookie_name = codes "docrunr_session"

-- `_SESSIONS.get(token)`
unfoldable pub find_session : Text → Sessions → Option ℕ
find_session token [] = none
find_session token ((t, exp) ∷ rest) = if text_eq t token then some exp else find_session token rest

-- `_SESSIONS.pop(token, None)`, also `del` where the token is there
unfoldable pub remove_session : Text → Sessions → Sessions
remove_session token [] = []
remove_session token ((t, exp) ∷ rest) =
    let others = remove_session token rest in if text_eq t token then others else (t, exp) ∷ others

abbrev pub put_front : ℕ → List Text → List Text
put_front c [] = (c ∷ []) ∷ []
put_front c (part ∷ parts) = (c ∷ part) ∷ parts

-- `text.split(";")`
unfoldable pub split_semicolon : Text → List Text
split_semicolon [] = [] ∷ []
split_semicolon (c ∷ cs) =
    let rest = split_semicolon cs in if c == b';' then [] ∷ rest else put_front c rest

abbrev pub or_none : Text → Option Text
or_none [] = none
or_none (c ∷ cs) = some (c ∷ cs)

-- The loop of `_parse_cookie_value` over the parts.
unfoldable pub cookie_in : Text → List Text → Option Text
unfolding strip starts_with
cookie_in prefix [] = none
cookie_in prefix (part ∷ parts) =
    let rest = cookie_in prefix parts in
    if starts_with (strip part) prefix
    then or_none (strip (drop (length prefix) (strip part)))
    else rest

unfoldable pub parse_cookie_value : Option Text → Text → Option Text
unfolding cookie_in split_semicolon
parse_cookie_value none name = none
parse_cookie_value (some header) name =
    if is_empty header then none else cookie_in (name ++ codes "=") (split_semicolon header)

-- `_session_create` at a fresh token
unfoldable pub session_create : Text → ℕ → Sessions → Sessions
unfolding remove_session
session_create token now sessions = (token, now + session_ttl) ∷ remove_session token sessions

-- A session past its time is deleted as it is found.
unfoldable pub check_found : Text → ℕ → Option ℕ → Sessions → Bool × Sessions
unfolding remove_session
check_found token now none sessions = (false, sessions)
check_found token now (some exp) sessions =
    if ltb exp now then (false, remove_session token sessions) else (true, sessions)

unfoldable pub session_valid : Option Text → ℕ → Sessions → Bool × Sessions
unfolding check_found find_session
session_valid none now sessions = (false, sessions)
session_valid (some token) now sessions =
    if is_empty token
    then (false, sessions)
    else check_found token now (find_session token sessions) sessions

unfoldable pub session_revoke : Option Text → Sessions → Sessions
unfolding remove_session
session_revoke none sessions = sessions
session_revoke (some token) sessions =
    if is_empty token then sessions else remove_session token sessions

pub find-remove :
    (t u : Text) (s : Sessions)
    → find_session t (remove_session u s) ≡ (if text_eq u t then none else find_session t s)
unfolding find_session remove_session
find-remove t u [] = ground arith
find-remove t u ((k, exp) ∷ s) =
    ground (arith, text_eq_iff k t, text_eq_iff k u, text_eq_iff u t, find-remove t u s)

pub find-create :
    (t u : Text) (now : ℕ) (s : Sessions)
    → find_session t (session_create u now s)
      ≡ (if text_eq u t then some (now + session_ttl) else find_session t s)
unfolding find_session session_create
find-create t u now s = ground (arith, find-remove t u s)
