-- ===== src/Matrix/Dates.antt =====
-- _parse_date of scripts/validate-compatibility-matrix.py, with what it uses of datetime.date and of
-- calendar.monthrange. `digit_value` is the value of the decimal digits outside ASCII, which `\d`
-- matches and int() reads.
pub mod Calendar
use cekat_event_sdk.Base.{
  ℕ, zero, suc, ◌+◌, ◌-◌, ◌*◌, ◌/◌, ◌%◌, Text, Bool, true, false, ◌&&◌, ◌||◌, not, Option, none,
  some, List, [], ◌∷◌, ltb, ◌==◌, if◌then◌else◌, codes, between, split,
}
use cekat_event_sdk.Timestamps.{Date, days_before}
use cekat_event_sdk.Verdicts.{or_reject}
use cekat_event_sdk.Patterns.{Rest, one_of, literal, captured, is_match}
use cekat_event_sdk.Matrix.{bad_date, Checked}

abbrev pub is_leap : ℕ → Bool
is_leap year = year % 4 == 0 && (not (year % 100 == 0) || year % 400 == 0)

-- calendar.monthrange(year, month)[1]
unfoldable pub days_in_month : (year month : ℕ) → ℕ
unfolding days_before
days_in_month year month =
    if month == 12
    then 31
    else days_before (is_leap year) (month + 1) - days_before (is_leap year) month

-- datetime.date(year, month, day); `none` is ValueError.
unfoldable pub date : (year month day : ℕ) → Option Date
date year month day =
    if between 1 9999 year && between 1 12 month && between 1 (days_in_month year month) day
    then some (record { year = year; month = month; day = day })
    else none

-- date.__lt__, which compares year, month and day in this order.
unfoldable pub is_before : Date → Date → Bool
is_before a b =
    ltb a.year b.year
    || a.year == b.year && (ltb a.month b.month || a.month == b.month && ltb a.day b.day)

-- date.toordinal(): 1 for 0001-01-01.
unfoldable pub ordinal : Date → ℕ
unfolding days_before
ordinal d =
    let years = d.year - 1 in
    years * 365
    + years / 4
    - years / 100
    + years / 400
    + days_before (is_leap d.year) d.month
    + d.day

-- (later - earlier).days, for a date that is not before the other.
abbrev pub days_between : (later earlier : Date) → ℕ
days_between later earlier = ordinal later - ordinal earlier

abbrev nothing_left : Rest Text → Rest Text
nothing_left rest [] = rest []
nothing_left rest (c ∷ t) = none

module _ (digit_value : ℕ → Option ℕ) where
  abbrev pub value_of_digit : ℕ → Option ℕ
  value_of_digit c = if between b'0' b'9' c then some (c - 48) else digit_value c

  abbrev pub is_digit : ℕ → Bool
  is_digit c = elim (value_of_digit c) [ none ↦ false | some d ↦ true ]

  abbrev digit_or_zero : ℕ → ℕ
  digit_or_zero c = elim (value_of_digit c) [ none ↦ 0 | some d ↦ d ]

  -- int() of digits.
  unfoldable pub number : ℕ → Text → ℕ
  number sofar [] = sofar
  number sofar (c ∷ t) = number (sofar * 10 + digit_or_zero c) t

  -- `\d{n}`
  unfoldable pub digits : ℕ → Rest Text → Rest Text
  digits zero rest = rest
  digits (suc n) rest = one_of is_digit (digits n rest)

  -- re.fullmatch of `\d{4}-\d{2}-\d{2}`, and of `\d{4}-\d{2}`.
  unfoldable pub has_full_form : Text → Bool
  unfolding digits literal
  has_full_form t = is_match (
      digits 4
        (literal (codes "-")
          (digits 2 (literal (codes "-") (digits 2 (nothing_left (captured []))))))
        t)

  unfoldable pub has_month_form : Text → Bool
  unfolding digits literal
  has_month_form t =
      is_match (digits 4 (literal (codes "-") (digits 2 (nothing_left (captured [])))) t)

  unfoldable pub all_ascii : Text → Bool
  all_ascii [] = true
  all_ascii (c ∷ t) = ltb c 128 && all_ascii t

  full_parts : List Text → Option Date
  unfolding date number
  full_parts [] = none
  full_parts (y ∷ []) = none
  full_parts (y ∷ m ∷ []) = none
  full_parts (y ∷ m ∷ d ∷ []) = date (number 0 y) (number 0 m) (number 0 d)
  full_parts (y ∷ m ∷ d ∷ e ∷ rest) = none

  -- date.fromisoformat, of a text of the full form: it reads ASCII digits only.
  unfoldable pub from_isoformat : Text → Option Date
  unfolding full_parts all_ascii
  from_isoformat t = if all_ascii t then full_parts (split b'-' t) else none

  -- The last day of a month; calendar.monthrange refuses other months with a ValueError.
  month_parts : List Text → Option Date
  unfolding date number days_in_month
  month_parts [] = none
  month_parts (y ∷ []) = none
  month_parts (y ∷ m ∷ []) =
      if between 1 12 (number 0 m)
      then date (number 0 y) (number 0 m) (days_in_month (number 0 y) (number 0 m))
      else none
  month_parts (y ∷ m ∷ d ∷ rest) = none

  unfoldable pub read_date : Text → Option Date
  unfolding has_full_form has_month_form from_isoformat month_parts
  read_date value =
      if has_full_form value
      then from_isoformat value
      else if has_month_form value
      then month_parts (split b'-' value)
      else none

  -- _parse_date
  unfoldable pub parse_date : (value place : Text) → Checked Date
  unfolding read_date
  parse_date value place = or_reject (read_date value) (bad_date place value)
