-- ===== src/Timestamps.antt =====
-- _occurred_at of python/src/cekat_event_sdk/validation.py, with what it uses of datetime: the UTC
-- time of a datetime, and the proleptic Gregorian calendar.
use cekat_event_sdk.Base.{
  ℕ, zero, suc, ◌+◌, ◌-◌, ◌*◌, ◌/◌, ◌%◌, ℤ, pos_part, neg_part, Text, Bool, ◌&&◌, ◌||◌, not, Option,
  none, some, [], ◌∷◌, ◌++◌, ltb, leb, ◌==◌, if◌then◌else◌, decimal, length,
}
use cekat_event_sdk.Errors.{Reason, Error, Result, ok, raise}
use cekat_event_sdk.Objects.{Value, Moment}

-- What the platform supplies: the time of the call, an aware datetime, and whether `%Y` of strftime
-- pads a year with zeros, which the C library decides.
pub record Clock : Type 0 where
  pub now : Moment
  pub pads_years : Bool

abbrev pub microseconds_per_day : ℕ
microseconds_per_day = 86400000000

-- The end of year 9999, in microseconds since the start of year 1.
abbrev pub end_of_time : ℕ
end_of_time = 3652059 * microseconds_per_day

-- moment.astimezone(timezone.utc): wall clock less offset; `none` is OverflowError.
unfoldable pub to_utc : ℕ → ℤ → Option ℕ
to_utc wall offset =
    if ltb (wall + neg_part offset) (pos_part offset)
    then none
    else if leb end_of_time (wall + neg_part offset - pos_part offset)
    then none
    else some (wall + neg_part offset - pos_part offset)

pub record Date : Type 0 where
  pub year : ℕ
  pub month : ℕ
  pub day : ℕ

-- Days in the year before a month, and in the months, of a common year.
abbrev pub days_before_month : ℕ → ℕ
days_before_month m =
    if m == 1
    then 0
    else if m == 2
    then 31
    else if m == 3
    then 59
    else if m == 4
    then 90
    else if m == 5
    then 120
    else if m == 6
    then 151
    else if m == 7
    then 181
    else if m == 8
    then 212
    else if m == 9
    then 243
    else if m == 10
    then 273
    else if m == 11
    then 304
    else 334

abbrev pub one_if : Bool → ℕ
one_if b = if b then 1 else 0

unfoldable pub days_before : Bool → ℕ → ℕ
days_before is_leap m = days_before_month m + one_if (ltb 2 m && is_leap)

-- The month and day of a day of the year, from 0: a guess that is at most one month too high.
unfoldable pub month_and_day : Bool → ℕ → ℕ × ℕ
unfolding days_before
month_and_day is_leap n =
    let guess = (n + 50) / 32 in
    let month = if ltb n (days_before is_leap guess) then guess - 1 else guess in
    (month, n - days_before is_leap month + 1)

-- The date of a day, from 0 for 0001-01-01.
unfoldable pub date_of_day : ℕ → Date
unfolding month_and_day
date_of_day n =
    let n400 = n / 146097 in
    let r400 = n % 146097 in
    let n100 = r400 / 36524 in
    let r100 = r400 % 36524 in
    let n4 = r100 / 1461 in
    let r4 = r100 % 1461 in
    let n1 = r4 / 365 in
    let r1 = r4 % 365 in
    let year = n400 * 400 + 1 + n100 * 100 + n4 * 4 + n1 in
    let is_leap = n1 == 3 && (not (n4 == 24) || n100 == 3) in
    let (month, day) = month_and_day is_leap r1 in
    if n1 == 4 || n100 == 4
    then record { year = year - 1; month = 12; day = 31 }
    else record { year = year; month = month; day = day }

abbrev zeros : ℕ → Text
zeros zero = []
zeros (suc n) = b'0' ∷ zeros n

-- A number with zeros in front, up to a width.
unfoldable pub padded : ℕ → ℕ → Text
unfolding decimal
padded width n = zeros (width - length (decimal n)) ++ decimal n

abbrev year_text : (pads_years : Bool) (year : ℕ) → Text
year_text pads_years year = if pads_years then padded 4 year else decimal year

-- strftime("%Y-%m-%dT%H:%M:%S.") and the milliseconds.
unfoldable pub timestamp : (pads_years : Bool) → ℕ → Text
unfolding date_of_day padded
timestamp pads_years utc =
    let date = date_of_day (utc / microseconds_per_day) in
    let seconds = utc % microseconds_per_day / 1000000 in
    year_text pads_years date.year
    ++ (b'-'
        ∷ (padded 2 date.month
            ++ (b'-'
                ∷ (padded 2 date.day
                    ++ (b'T'
                        ∷ (padded 2 (seconds / 3600)
                            ++ (b':'
                                ∷ (padded 2 (seconds / 60 % 60)
                                    ++ (b':'
                                        ∷ (padded 2 (seconds % 60)
                                            ++ (b'.'
                                                ∷ (padded 3 (utc % 1000000 / 1000)
                                                    ++ b'Z' ∷ []))))))))))))

in_range : (pads_years : Bool) → Option ℕ → Result Text
in_range pads_years none = raise (Error.validation Reason.occurred_at_range)
in_range pads_years (some utc) = ok (timestamp pads_years utc)

of_moment : (pads_years : Bool) → ℕ → Option ℤ → Result Text
unfolding in_range to_utc
of_moment pads_years wall none = raise (Error.validation Reason.occurred_at_naive)
of_moment pads_years wall (some offset) = in_range pads_years (to_utc wall offset)

unfoldable pub occurred_at : Value → Clock → Result Text
unfolding of_moment
occurred_at Value.null clock = of_moment clock.pads_years clock.now.wall clock.now.offset
occurred_at (Value.datetime m) clock = of_moment clock.pads_years m.wall m.offset
occurred_at _ clock = raise (Error.validation Reason.occurred_at_type)
