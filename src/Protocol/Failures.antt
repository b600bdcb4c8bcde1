-- ===== src/Protocol/Failures.antt =====
-- Which error a response is, when it is no acknowledgement.
use cekat_event_sdk.Base.{
  ℕ, ◌≡◌, ◌≢◌, refl, sym, Text, Bool, true, false, Option, none, some, List, [], ◌∷◌, ◌++◌, ◌==◌,
  ==_iff, codes, strip, nonempty, is_empty, decimal, not, ◌&&◌, arith, Bool-cases, Option-cases,
  inl, inr,
}
use cekat_event_sdk.Errors.{
  Cause, Error, HttpKind, authentication, event_definition_not_found, api, Result, ok, raise,
}
use cekat_event_sdk.Json.{Json, str}
use cekat_event_sdk.Models.{Acknowledgement}
use cekat_event_sdk.Responses.{ReceivedResponse}
use cekat_event_sdk.Protocol.{
  Loaded, document, malformed, too_deep, dict_get, is_bool, nonempty_str, success_fields, accept,
  unread_acknowledgement, envelope_acknowledgement, error_fields, with_error, with_code, code_field,
  http_error, fields_or_fallback, error_kind, status_text, status_texts, text_or, refused, decode,
  decode_error,
}

-- The class of the error for a status other than 200.
abbrev pub IsKindOf : HttpKind → ℕ → Type 0
IsKindOf authentication status = status ≡ 401
IsKindOf event_definition_not_found status = status ≡ 404
IsKindOf api status = (status ≢ 401) × (status ≢ 404)

-- What an error says of the response that it is raised for.
abbrev pub Explains : (List ℕ → Loaded) → ReceivedResponse → ℕ → Error → Type 0
Explains loads r attempts (Error.http e) =
    (r.status_code ≢ 200)
    × IsKindOf e.kind r.status_code
    × (e.status_code ≡ r.status_code)
    × (e.message ≢ [])
    × (e.raw_body ≡ r.body)
    × (e.attempts ≡ attempts)
Explains loads r attempts (Error.response_decode e) =
    (r.status_code ≡ 200)
    × (e.raw_body ≡ r.body)
    × (e.attempts ≡ attempts)
    × (e.cause ≡ r.body_read_failure)
Explains loads r attempts (Error.foreign name) = loads r.body ≡ too_deep
Explains loads r attempts (Error.validation reason) = ⊥
Explains loads r attempts (Error.transport e) = ⊥

nonempty-ne : (t u : Text) → nonempty t ≡ some u → u ≢ []
nonempty-ne [] u e = cc
nonempty-ne (c ∷ t) u e = ground arith

nonempty_str-ne : (o : Option Json) (u : Text) → nonempty_str o ≡ some u → u ≢ []
unfolding nonempty_str
nonempty_str-ne (some (str t)) u e = nonempty-ne t u e
nonempty_str-ne (some Json.null) u e = cc
nonempty_str-ne none u e = cc
nonempty_str-ne (some _) u e = cc

with_error-ne :
    (o : Option Text) (j : Json) (f : Text × Option Text)
    → ((u : Text) → o ≡ some u → u ≢ [])
    → with_error o j ≡ some f
    → f.0 ≢ []
unfolding with_error with_code
with_error-ne none j f h e = cc
with_error-ne (some t) j f h e = go (code_field (dict_get (codes "code") j)) e
  where
    go : (c : Option (Option Text)) → with_code t c ≡ some f → f.0 ≢ []
    go none e = cc
    go (some c) e = let same : t ≡ f.0 = ground arith in rw (← same) (h t refl)

error_fields-ne : (j : Json) (f : Text × Option Text) → error_fields j ≡ some f → f.0 ≢ []
unfolding error_fields
error_fields-ne j f e = elim (Bool-cases (is_bool false (dict_get (codes "success") j))) [
  | inl yes_success ↦ with_error-ne _ j f (nonempty_str-ne _) (rw yes_success at e)
  | inr no_success ↦ absurd (let e' : none ≡ some f = rw no_success at e in cc)
]

-- No text of the table is empty.
abbrev all_named : List (ℕ × Text) → Bool
all_named [] = true
all_named ((n, t) ∷ rest) = not (is_empty t) && all_named rest

text_or-ne :
    (default : Text) (n : ℕ) (table : List (ℕ × Text))
    → all_named table ≡ true
    → is_empty default ≡ false
    → is_empty (text_or default n table) ≡ false
text_or-ne default n [] h k = k
text_or-ne default n ((m, t) ∷ rest) h k = ground (arith, text_or-ne default n rest)

status_text-ne : (n : ℕ) → is_empty (status_text n) ≡ false
unfolding status_text
status_text-ne n = text_or-ne (codes "HTTP " ++ decimal n) n status_texts refl refl

fields-ne :
    (found : Option (Text × Option Text)) (r : ReceivedResponse)
    → ((f : Text × Option Text) → found ≡ some f → f.0 ≢ [])
    → (fields_or_fallback found r).0 ≢ []
unfolding fields_or_fallback
fields-ne (some f) r h = h f refl
fields-ne none r h = elim (Option-cases (nonempty (strip r.reason_phrase))) [
  | inl blank ↦ rw blank (λ e.
      let no : is_empty (status_text r.status_code) ≡ true = rw e in
      cc (status_text-ne r.status_code))
  | inr (t, found) ↦ rw found (nonempty-ne _ t found)
]

kind-IsKindOf : (n : ℕ) → IsKindOf (error_kind n) n
unfolding error_kind
kind-IsKindOf n = elim (Bool-cases (n == 401)) [
  | inl is_401 ↦ rw is_401 ((==_iff n 401).0 is_401)
  | inr not_401 ↦ rw not_401 (elim (Bool-cases (n == 404)) [
    | inl is_404 ↦ rw is_404 ((==_iff n 404).0 is_404)
    | inr not_404 ↦ rw not_404 (ground arith, ground arith)
  ])
]

module _ (loads : List ℕ → Loaded) (r : ReceivedResponse) (attempts : ℕ) where
  http_error-Explains :
      (found : Option (Text × Option Text))
      → ((f : Text × Option Text) → found ≡ some f → f.0 ≢ [])
      → r.status_code ≢ 200
      → Explains loads r attempts (http_error found r attempts)
  unfolding http_error
  http_error-Explains found h status =
      (status, kind-IsKindOf r.status_code, refl, fields-ne found r h, refl, refl)

  -- An error that is given for an outcome `o` of decoding explains it.
  abbrev IsExplained : Result Acknowledgement → Type 0
  IsExplained (ok a) = Unit
  IsExplained (raise e) = Explains loads r attempts e

  refused-IsExplained :
      (l : Loaded)
      → loads r.body ≡ l
      → r.status_code ≢ 200
      → IsExplained (refused loads l r attempts)
  unfolding refused
  refused-IsExplained too_deep h status = h
  refused-IsExplained malformed h status = http_error-Explains none (λ f e. cc) status
  refused-IsExplained (document j) h status =
      http_error-Explains (error_fields j) (error_fields-ne j) status

  accept-IsExplained :
      (o : Option Acknowledgement)
      → r.status_code ≡ 200
      → r.body_read_failure ≡ none
      → IsExplained (accept o r attempts)
  unfolding decode_error
  accept-IsExplained (some a) status was_read = tt
  accept-IsExplained none status was_read = (status, refl, refl, sym was_read)

  envelope-IsExplained :
      (l : Loaded)
      → loads r.body ≡ l
      → r.status_code ≡ 200
      → r.body_read_failure ≡ none
      → IsExplained (envelope_acknowledgement loads l r attempts)
  unfolding envelope_acknowledgement
  envelope-IsExplained too_deep h status was_read = h
  envelope-IsExplained malformed h status was_read = accept-IsExplained none status was_read
  envelope-IsExplained (document j) h status was_read =
      accept-IsExplained (success_fields r.body j) status was_read

  unread-IsExplained :
      (f : Option Cause)
      → r.body_read_failure ≡ f
      → r.status_code ≡ 200
      → IsExplained (unread_acknowledgement loads f r attempts)
  unfolding unread_acknowledgement decode_error
  unread-IsExplained (some c) h status = (status, refl, refl, sym h)
  unread-IsExplained none h status = elim (Bool-cases r.body_truncated) [
    | inl cut ↦ simp cut (status, refl, refl, sym h)
    | inr whole ↦ simp whole (envelope-IsExplained (loads r.body) refl status h)
  ]

  decode-IsExplained : IsExplained (decode loads r attempts)
  unfolding decode
  decode-IsExplained = elim (Bool-cases (r.status_code == 200)) [
    | inl is_200 ↦
        rw is_200
          (unread-IsExplained r.body_read_failure refl ((==_iff r.status_code 200).0 is_200))
    | inr other ↦ rw other (refused-IsExplained (loads r.body) refl (ground arith))
  ]

  -- Every error of decoding says what the response was. A status other than 200 gives an HttpError
  -- of the class of that status, with a message that is not empty; status 200 gives a
  -- ResponseDecodeError with the cause of a failed read; both carry the body and the attempts; and
  -- an exception that is none of the SDK's comes only of a body that json.loads gives up on.
  pub decode-raise : (e : Error) → decode loads r attempts ≡ raise e → Explains loads r attempts e
  decode-raise e h = rw h at decode-IsExplained
