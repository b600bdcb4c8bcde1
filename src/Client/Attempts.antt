-- ===== src/Client/Attempts.antt =====
-- One attempt: what it sends and closes, what it captures of a body, and when the two clients agree.
use cekat_event_sdk.Base.{
  ℕ, suc, ◌≡◌, refl, Float, Bool, true, false, Option, none, some, List, [], ◌∷◌, ◌++◌, Bool-cases,
  inl, inr, All,
}
use cekat_event_sdk.Responses.{Buffer, append}
use cekat_event_sdk.Shared.{Settings}
use cekat_event_sdk.Client.{
  Chunk, Ending, Exchange, unanswered, failing, answering, Effect, request, opened, closed, sleep,
  later_than, read_body, attempt, async_read_body, async_attempt, Mode, blocking, asynchronous,
  attempt_of,
}

abbrev pub request_count : List Effect → ℕ
request_count [] = 0
request_count (request u h b ∷ es) = suc (request_count es)
request_count (opened ∷ es) = request_count es
request_count (closed ∷ es) = request_count es
request_count (sleep d ∷ es) = request_count es

-- The responses that were opened and not yet closed, one effect after the other; `none` if one is
-- closed that is not open, or if a request is sent or the client sleeps while one is open.
abbrev pub track_open : Bool → List Effect → Option Bool
track_open is_open [] = some is_open
track_open false (opened ∷ es) = track_open true es
track_open true (opened ∷ es) = none
track_open true (closed ∷ es) = track_open false es
track_open false (closed ∷ es) = none
track_open false (request u h b ∷ es) = track_open false es
track_open true (request u h b ∷ es) = none
track_open false (sleep d ∷ es) = track_open false es
track_open true (sleep d ∷ es) = none

-- The only request that an effect may send.
abbrev pub IsRequest : Settings → List ℕ → Effect → Type 0
IsRequest s body (request u h b) = (u ≡ s.url) × (h ≡ s.headers) × (b ≡ body)
IsRequest s body opened = Unit
IsRequest s body closed = Unit
IsRequest s body (sleep d) = Unit

-- An attempt of either client sends one request, that of the settings, and leaves nothing open.
pub record IsOneAttempt (s : Settings) (body : List ℕ) (es : List Effect) : Type 0 where
  pub one : request_count es ≡ 1
  pub requests : All (IsRequest s body) es
  pub closes : (rest : List Effect) → track_open false (es ++ rest) ≡ track_open false rest

sent-IsOneAttempt :
    (s : Settings) (body : List ℕ) → IsOneAttempt s body (request s.url s.headers body ∷ [])
sent-IsOneAttempt s body = record {
  one = refl;
  requests = ((refl, refl, refl), tt);
  closes = λ rest. refl;
}

answered-IsOneAttempt :
    (s : Settings) (body : List ℕ)
    → IsOneAttempt s body (request s.url s.headers body ∷ opened ∷ closed ∷ [])
answered-IsOneAttempt s body = record {
  one = refl;
  requests = ((refl, refl, refl), (tt, (tt, tt)));
  closes = λ rest. refl;
}

attempt-IsOneAttempt :
    (s : Settings) (body : List ℕ) (x : Exchange) → IsOneAttempt s body (attempt s body x).1
unfolding attempt
attempt-IsOneAttempt s body (unanswered c at) = sent-IsOneAttempt s body
attempt-IsOneAttempt s body (failing name at) = sent-IsOneAttempt s body
attempt-IsOneAttempt s body (answering a) = answered-IsOneAttempt s body

async_attempt-IsOneAttempt :
    (s : Settings) (body : List ℕ) (x : Exchange) → IsOneAttempt s body (async_attempt s body x).1
unfolding async_attempt
async_attempt-IsOneAttempt s body (unanswered c at) = sent-IsOneAttempt s body
async_attempt-IsOneAttempt s body (failing name at) = sent-IsOneAttempt s body
async_attempt-IsOneAttempt s body (answering a) =
    elim (Bool-cases (later_than a.answered_at s.timeout)) [
      | inl late ↦ simp late (sent-IsOneAttempt s body)
      | inr early ↦ simp early (answered-IsOneAttempt s body)
    ]

pub attempt_of-IsOneAttempt :
    (mode : Mode) (s : Settings) (body : List ℕ) (x : Exchange)
    → IsOneAttempt s body (attempt_of mode s body x).1
attempt_of-IsOneAttempt blocking = attempt-IsOneAttempt
attempt_of-IsOneAttempt asynchronous = async_attempt-IsOneAttempt

-- No part of the exchange comes in after the deadline.
abbrev pub IsInTime : Float → Exchange → Type 0
IsInTime timeout (unanswered c at) = later_than at timeout ≡ false
IsInTime timeout (failing name at) = later_than at timeout ≡ false
IsInTime timeout (answering a) =
    (later_than a.answered_at timeout ≡ false)
    × All (λ c. later_than c.at timeout ≡ false) a.chunks
    × (later_than a.ended_at timeout ≡ false)

read_body-agree :
    (timeout : Float) (ending : Ending) (ended_at : ℕ) (buffer : Buffer) (chunks : List Chunk)
    → All (λ c. later_than c.at timeout ≡ false) chunks
    → later_than ended_at timeout ≡ false
    → async_read_body timeout ending ended_at buffer chunks ≡ read_body timeout ending buffer chunks
unfolding read_body async_read_body
read_body-agree timeout ending ended_at buffer [] h k = rw k
read_body-agree timeout ending ended_at buffer (c ∷ cs) (h, hs) k =
    rw (h, read_body-agree timeout ending ended_at (append buffer c.bytes).0 cs hs k)

-- An exchange that is in time gives both clients the same result and the same effects.
pub attempt-agree :
    (s : Settings) (body : List ℕ) (x : Exchange)
    → IsInTime s.timeout x
    → async_attempt s body x ≡ attempt s body x
unfolding attempt async_attempt
attempt-agree s body (unanswered c at) h = rw h
attempt-agree s body (failing name at) h = rw h
attempt-agree s body (answering a) (h, hs, k) =
    rw (h, read_body-agree s.timeout a.ending a.ended_at [] a.chunks hs k)
