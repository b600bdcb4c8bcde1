-- ===== src/Client/Bodies.antt =====
-- What an attempt keeps of a response body that comes in time.
use mathlib.Core.List.{append-nil, append_assoc}
use cekat_event_sdk.Base.{
  ℕ, ◌+◌, ◌-◌, ◌≡◌, refl, ap, sym, ◌∙◌, Float, true, false, Option, none, some, List, [], ◌∷◌, ◌++◌,
  ltb, leb, if◌then◌else◌, arith, Bool-cases, inl, inr, All, length, length-append, take,
  take-append, take-zero, min,
}
use cekat_event_sdk.Errors.{Cause}
use cekat_event_sdk.Responses.{Buffer, append, max_response_bytes}
use cekat_event_sdk.Responses.Capture.{Holds, append-Holds, response-Holds}
use cekat_event_sdk.Shared.{Settings, received}
use cekat_event_sdk.Client.Attempts.{IsInTime, attempt-agree}
use cekat_event_sdk.Client.{
  Chunk, Ending, complete, broken, crashed, Answer, answering, response, later_than, Body, read,
  at_end, read_body, attempt, finish_attempt, Mode, blocking, asynchronous, attempt_of, Attempted,
  Effect,
}

-- All that the server sends in a body.
abbrev pub sent_bytes : List Chunk → List ℕ
sent_bytes [] = []
sent_bytes (c ∷ cs) = c.bytes ++ sent_bytes cs

-- The failure that a stream reports by its end, if that is no foreign exception.
abbrev pub Fails : Ending → Option Cause → Type 0
Fails complete f = f ≡ none
Fails (broken cause) f = f ≡ some cause
Fails (crashed name) f = ⊥

take-long : (xs ys : List ℕ) → leb (length xs) 65536 ≡ false → take 65537 (xs ++ ys) ≡ take 65537 xs
take-long xs ys h =
    take-append 65537 xs ys
    ∙ ap (λ t. take 65537 xs ++ t) (take-zero (65537 - length xs) ys (ground arith))
    ∙ append-nil _

record IsRead (ending : Ending) (total : List ℕ) (f : Option Cause) (body : Body) : Type 0 where
  buffer : Buffer
  failure : Option Cause
  is_read : body ≡ read buffer failure
  holds : Holds buffer total
  fails : leb (length total) max_response_bytes ≡ true → failure ≡ f

at_end-IsRead :
    (ending : Ending) (f : Option Cause) (buffer : Buffer) (total : List ℕ)
    → Fails ending f
    → Holds buffer total
    → IsRead ending total f (at_end ending buffer)
at_end-IsRead complete f buffer total e h = record {
  buffer = buffer;
  failure = none;
  is_read = refl;
  holds = h;
  fails = λ _. sym e;
}
at_end-IsRead (broken c) f buffer total e h = record {
  buffer = buffer;
  failure = some c;
  is_read = refl;
  holds = h;
  fails = λ _. sym e;
}
at_end-IsRead (crashed name) f buffer total e h = absurd e

not-both : (a b : ℕ) → leb a 65536 ≡ false → leb (a + b) 65536 ≡ true → ⊥
not-both a b h k = ground arith

full-IsRead :
    (ending : Ending) (f : Option Cause) (buffer : Buffer) (sent more : List ℕ)
    → Holds buffer sent
    → leb (length sent) max_response_bytes ≡ false
    → IsRead ending (sent ++ more) f (read buffer none)
full-IsRead ending f buffer sent more h over = record {
  buffer = buffer;
  failure = none;
  is_read = refl;
  holds = h ∙ sym (take-long sent more over);
  fails = λ fits. absurd (
      not-both (length sent) (length more) over
        (sym (ap (λ l. leb l 65536) (length-append sent more)) ∙ fits));
}

module _ (timeout : Float) (ending : Ending) (f : Option Cause) (e : Fails ending f) where
  read_body-IsRead :
      (buffer sent : List ℕ) (chunks : List Chunk)
      → Holds buffer sent
      → All (λ c. later_than c.at timeout ≡ false) chunks
      → IsRead ending (sent ++ sent_bytes chunks) f (read_body timeout ending buffer chunks)
  unfolding read_body
  read_body-IsRead buffer sent [] h t =
      rw (append-nil sent) (at_end-IsRead ending f buffer sent e h)
  read_body-IsRead buffer sent (c ∷ cs) h (t, ts) =
      let (holds, fits) = append-Holds buffer sent c.bytes h in
      elim (Bool-cases (leb (length (sent ++ c.bytes)) max_response_bytes)) [
        | inl room ↦
            rw (fits ∙ room, t, ← append_assoc sent c.bytes (sent_bytes cs))
              (read_body-IsRead (append buffer c.bytes).0 (sent ++ c.bytes) cs holds ts)
        | inr full ↦
            rw (fits ∙ full, ← append_assoc sent c.bytes (sent_bytes cs))
              (full-IsRead ending f (append buffer c.bytes).0 (sent ++ c.bytes) (sent_bytes cs)
                holds full)
      ]

unless-cut :
    (l : ℕ) (f g : Option Cause)
    → (leb l 65536 ≡ true → f ≡ g)
    → (if ltb 65536 l then none else f) ≡ (if ltb 65536 l then none else g)
unless-cut l f g h = ground (arith)

-- What must come in time: for the blocking client every chunk, for the asynchronous one the
-- headers and the end of the stream too.
abbrev pub Arrives : Mode → Float → Answer → Type 0
Arrives blocking timeout a = All (λ c. later_than c.at timeout ≡ false) a.chunks
Arrives asynchronous timeout a = IsInTime timeout (answering a)

attempt_of-blocking :
    (mode : Mode) (s : Settings) (body : List ℕ) (a : Answer)
    → Arrives mode s.timeout a
    → All (λ c. later_than c.at s.timeout ≡ false) a.chunks
      × (attempt_of mode s body (answering a) ≡ attempt s body (answering a))
attempt_of-blocking blocking s body a t = (t, refl)
attempt_of-blocking asynchronous s body a (h, t, k) =
    (t, attempt-agree s body (answering a) (h, t, k))

-- Of a body that comes in time, and whose stream ends normally or by an error of the HTTP library,
-- an attempt of either client keeps the first 65,536 bytes of all that the server sends, however
-- that is cut into chunks; the response is marked as cut exactly when the server sends more; and
-- the error that ends the stream is reported exactly when the body is not cut. In time are the
-- chunks, and for the asynchronous client the headers and the end of the stream too.
pub attempt-captures :
    (mode : Mode) (s : Settings) (body : List ℕ) (a : Answer) (f : Option Cause)
    → Fails a.ending f
    → Arrives mode s.timeout a
    → (attempt_of mode s body (answering a)).0
      ≡ response (record {
        status_code = a.status_code;
        reason_phrase = a.reason_phrase;
        headers = a.headers;
        body = take max_response_bytes (sent_bytes a.chunks);
        body_truncated = ltb max_response_bytes (length (sent_bytes a.chunks));
        observed_body_bytes = min (max_response_bytes + 1) (length (sent_bytes a.chunks));
        body_read_failure =
            if ltb max_response_bytes (length (sent_bytes a.chunks)) then none else f;
      })
unfolding attempt received
attempt-captures mode s body a f e arrives =
    let (t, same_attempt) = attempt_of-blocking mode s body a arrives in
    let r = read_body-IsRead s.timeout a.ending f e [] [] a.chunks refl t in
    let total = sent_bytes a.chunks in
    ap (λ (x : Attempted × List Effect). x.0) same_attempt
    ∙ ap (finish_attempt a) r.is_read
    ∙ ap response
        (response-Holds r.buffer total a.status_code a.reason_phrase a.headers r.failure r.holds)
    ∙ (let same = unless-cut (length total) r.failure f r.fails in
        λ i. response (record {
          status_code = a.status_code;
          reason_phrase = a.reason_phrase;
          headers = a.headers;
          body = take max_response_bytes total;
          body_truncated = ltb max_response_bytes (length total);
          observed_body_bytes = min (max_response_bytes + 1) (length total);
          body_read_failure = same i;
        }))
