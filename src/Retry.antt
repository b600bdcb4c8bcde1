-- ===== src/Retry.antt =====
-- python/src/cekat_event_sdk/retry.py: which statuses are retried, and how long a retry waits.
-- A delay is a number of microseconds: 0.1 s is 100000, and a datetime has no finer parts.
pub mod Digits
pub mod Delays
use cekat_event_sdk.Base.{
  ℕ, zero, suc, ◌+◌, ◌-◌, ◌*◌, ◌^◌, min, max, ℤ, pos, negsuc, Text, Bool, true, false, ◌&&◌, ◌||◌,
  not, Option, none, some, List, [], ◌∷◌, ◌==◌, leb, ltb, if◌then◌else◌, between, codes, length,
  strip, is_empty, neg_part, pos_part,
}
use cekat_event_sdk.Objects.{Moment}

abbrev pub second : ℕ
second = 1000000

-- MAXIMUM_RETRY_AFTER_SECONDS
abbrev pub maximum_retry_after : ℕ
maximum_retry_after = 5 * second

unfoldable pub is_retryable_status : ℕ → Bool
is_retryable_status status_code =
    status_code == 429
    || status_code == 500
    || status_code == 502
    || status_code == 503
    || status_code == 504

unfoldable pub jitter_upper_bound : ℕ → ℕ
jitter_upper_bound retry_number = min (100000 * 2 ^ (min (max retry_number 1) 5 - 1)) second

-- A number of seconds that a header asks for, in microseconds; `infinite` is float("inf").
pub data Seconds : Type 0 where
  finite : ℕ → Seconds
  infinite : Seconds

-- One character of the patterns of _HTTP_DATE.
pub data Class : Type 0 where
  letter digit space_or_digit : Class
  exactly : ℕ → Class

abbrev pub ascii_digit : ℕ → Bool
ascii_digit c = between b'0' b'9' c

-- text.isascii() and text.isdigit()
unfoldable pub all_digits : Text → Bool
all_digits [] = true
all_digits (c ∷ t) = ascii_digit c && all_digits t

unfoldable pub number_from : ℕ → Text → ℕ
number_from acc [] = acc
number_from acc (c ∷ t) = number_from (acc * 10 + (c - 48)) t

abbrev or_empty : Option Text → Text
or_empty none = []
or_empty (some t) = t

-- max(0.0, (date - now).total_seconds()), where a date with no offset counts as UTC.
abbrev pub offset_or_utc : Moment → ℤ
offset_or_utc m = elim m.offset [ none ↦ pos 0 | some o ↦ o ]

unfoldable pub remaining : Moment → Moment → ℕ
remaining date now =
    (date.wall + neg_part (offset_or_utc date) + pos_part (offset_or_utc now))
    - (now.wall + neg_part (offset_or_utc now) + pos_part (offset_or_utc date))

-- Does the requested delay exceed the cap?
unfoldable pub over_cap : Option Seconds → Bool
over_cap none = false
over_cap (some infinite) = true
over_cap (some (finite s)) = ltb maximum_retry_after s

-- `requested or 0.0`, where the cap was not exceeded, so that the request is a number.
unfoldable pub or_zero : Option Seconds → ℕ
or_zero none = 0
or_zero (some infinite) = 0
or_zero (some (finite s)) = s

-- `unicode_digit` tells which characters outside ASCII the `\d` of a pattern accepts;
-- `parsedate_to_datetime` is that of email.utils, with `none` for its TypeError and ValueError.
module _ (unicode_digit : ℕ → Bool) (parsedate_to_datetime : Text → Option Moment) where
  accepts : Class → ℕ → Bool
  accepts letter c = between b'A' b'Z' c || between b'a' b'z' c
  accepts digit c = ascii_digit c || leb 128 c && unicode_digit c
  accepts space_or_digit c = c == b' ' || ascii_digit c || leb 128 c && unicode_digit c
  accepts (exactly d) c = c == d

  matches : List Class → Text → Bool
  matches [] [] = true
  matches [] (_ ∷ _) = false
  matches (_ ∷ _) [] = false
  matches (k ∷ ks) (c ∷ t) = accepts k c && matches ks t

  abbrev literal : Text → List Class → List Class
  literal [] rest = rest
  literal (c ∷ t) rest = exactly c ∷ literal t rest

  abbrev time_of_day : List Class → List Class
  time_of_day rest =
      digit ∷ digit ∷ exactly b':' ∷ digit ∷ digit ∷ exactly b':' ∷ digit ∷ digit ∷ rest

  abbrev month : List Class → List Class
  month rest = letter ∷ letter ∷ letter ∷ rest

  abbrev imf_fixdate : List Class
  imf_fixdate = month (
      literal (codes ", ") (
        digit
        ∷ digit
        ∷ exactly b' '
        ∷ month (
            exactly b' '
            ∷ digit
            ∷ digit
            ∷ digit
            ∷ digit
            ∷ exactly b' '
            ∷ time_of_day (literal (codes " GMT") []))))

  -- The day's name has six to nine letters: three here, and three to six in front.
  abbrev rfc_850 : List Class
  rfc_850 = month (
      literal (codes ", ") (
        digit
        ∷ digit
        ∷ exactly b'-'
        ∷ month (
            exactly b'-' ∷ digit ∷ digit ∷ exactly b' ' ∷ time_of_day (literal (codes " GMT") []))))

  abbrev asctime : List Class
  asctime = month (
      exactly b' '
      ∷ month (
          exactly b' '
          ∷ space_or_digit
          ∷ digit
          ∷ exactly b' '
          ∷ time_of_day (exactly b' ' ∷ digit ∷ digit ∷ digit ∷ digit ∷ [])))

  -- _HTTP_DATE.fullmatch(text)
  unfoldable pub is_http_date : Text → Bool
  unfolding matches accepts
  is_http_date text =
      matches imf_fixdate text
      || matches (month rfc_850) text
      || matches (letter ∷ month rfc_850) text
      || matches (letter ∷ letter ∷ month rfc_850) text
      || matches (month (month rfc_850)) text
      || matches asctime text

  dated : Option Moment → Moment → Option Seconds
  dated none now = none
  dated (some date) now = some (finite (remaining date now))

  unfoldable pub parse_retry_after : Option Text → Moment → Option Seconds
  unfolding all_digits number_from is_http_date dated remaining
  parse_retry_after value now =
      let text = strip (or_empty value) in
      if is_empty text
      then none
      else if all_digits text
      then some (if ltb 9 (length text) then infinite else finite (number_from 0 text * second))
      else if not (is_http_date text)
      then none
      else dated (parsedate_to_datetime text) now

  -- `uniform` is random.uniform, on microseconds; `now` is the time of the call.
  unfoldable pub retry_delay : ℕ → Option Text → (ℕ → ℕ → ℕ) → Moment → Option ℕ
  unfolding parse_retry_after jitter_upper_bound over_cap or_zero
  retry_delay retry_number retry_after uniform now =
      let requested = parse_retry_after retry_after now in
      if over_cap requested
      then none
      else some (max (uniform 0 (jitter_upper_bound retry_number)) (or_zero requested))
