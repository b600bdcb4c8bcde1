-- ===== src/Responses/Capture.antt =====
-- The buffer of a response body holds a prefix of what the server sent, one byte more than is kept.
use mathlib.Core.List.{append-nil}
use cekat_event_sdk.Base.{
  ℕ, ◌+◌, ◌-◌, min, ◌≡◌, refl, ap, sym, ◌∙◌, Text, Option, none, List, ◌++◌, ltb, leb,
  if◌then◌else◌, length, take, length-take, take-append, take-take, take-zero, arith, Bool-cases,
  inl, inr,
}
use cekat_event_sdk.Errors.{Cause}
use cekat_event_sdk.Responses.{Buffer, append, response, max_response_bytes}

-- The buffer after the bytes `sent` have come in.
abbrev pub Holds : Buffer → List ℕ → Type 0
Holds buffer sent = buffer ≡ take (max_response_bytes + 1) sent

grow : ℕ → Buffer → List ℕ → Buffer
grow limit buffer chunk =
    if ltb 0 (limit - length buffer) then buffer ++ take (limit - length buffer) chunk else buffer

grow-take :
    (limit : ℕ) (sent chunk : List ℕ)
    → grow limit (take limit sent) chunk ≡ take limit (sent ++ chunk)
unfolding grow
grow-take limit sent chunk =
    branch (limit - length (take limit sent)) (omega (arith, length-take limit sent))
    ∙ sym (take-append limit sent chunk)
  where
    branch :
        (room : ℕ)
        → room ≡ limit - length sent
        → (if ltb 0 room then take limit sent ++ take room chunk else take limit sent)
          ≡ take limit sent ++ take (limit - length sent) chunk
    branch room e = elim (Bool-cases (ltb 0 room)) [
      | inl some_room ↦ rw (some_room, e)
      | inr no_room ↦
          rw (no_room, take-zero (limit - length sent) chunk (ground arith)) (sym (append-nil _))
    ]

append-grow : (buffer chunk : List ℕ) → (append buffer chunk).0 ≡ grow 65537 buffer chunk
unfolding append grow
append-grow buffer chunk = refl

append-fits :
    (buffer chunk : List ℕ)
    → (append buffer chunk).1 ≡ leb (length (append buffer chunk).0) max_response_bytes
unfolding append
append-fits buffer chunk = refl

leb-min : (l : ℕ) → leb (min 65537 l) 65536 ≡ leb l 65536
leb-min l = ground arith

grown :
    (buffer sent chunk : List ℕ) → Holds buffer sent → Holds (append buffer chunk).0 (sent ++ chunk)
grown buffer sent chunk h =
    append-grow buffer chunk ∙ ap (λ b. grow 65537 b chunk) h ∙ grow-take 65537 sent chunk

-- Appending a chunk keeps the buffer a prefix of all that was sent, and the answer says whether
-- all of that fits.
pub append-Holds :
    (buffer sent chunk : List ℕ)
    → Holds buffer sent
    → Holds (append buffer chunk).0 (sent ++ chunk)
      × ((append buffer chunk).1 ≡ leb (length (sent ++ chunk)) max_response_bytes)
append-Holds buffer sent chunk h = (
  grown buffer sent chunk h,
  append-fits buffer chunk
      ∙ ap (λ b. leb (length b) 65536) (grown buffer sent chunk h)
      ∙ ap (λ l. leb l 65536) (length-take 65537 (sent ++ chunk))
      ∙ leb-min (length (sent ++ chunk)),
)

ltb-min : (l : ℕ) → ltb 65536 (min 65537 l) ≡ ltb 65536 l
ltb-min l = ground arith

-- The response that is made of the buffer: its body is what was sent, cut to the limit; it is
-- marked as cut exactly when more was sent; and a read failure is reported unless it was cut.
pub response-Holds :
    (buffer sent : List ℕ) (status_code : ℕ) (reason : Text) (headers : List (Text × Text))
    (failure : Option Cause)
    → Holds buffer sent
    → response buffer status_code reason headers failure ≡ record {
      status_code = status_code;
      reason_phrase = reason;
      headers = headers;
      body = take max_response_bytes sent;
      body_truncated = ltb max_response_bytes (length sent);
      observed_body_bytes = min (max_response_bytes + 1) (length sent);
      body_read_failure = if ltb max_response_bytes (length sent) then none else failure;
    }
unfolding response
response-Holds buffer sent status_code reason headers failure h =
    let size : length buffer ≡ min 65537 (length sent) =
      ap (λ (b : List ℕ). length b) h ∙ length-take 65537 sent in
    let cut : ltb 65536 (length buffer) ≡ ltb 65536 (length sent) =
      ap (λ (l : ℕ). ltb 65536 l) size ∙ ltb-min (length sent) in
    let kept : take 65536 buffer ≡ take 65536 sent =
      ap (λ (b : List ℕ). take 65536 b) h ∙ take-take 65536 65537 sent (omega arith) in
    λ i. record {
      status_code = status_code;
      reason_phrase = reason;
      headers = headers;
      body = kept i;
      body_truncated = cut i;
      observed_body_bytes = size i;
      body_read_failure = if cut i then none else failure;
    }
