-- ===== src/Matrix/Dates/Calendar.antt =====
-- The dates that _parse_date of scripts/validate-compatibility-matrix.py reads are on the calendar.
use mathlib.Core.Path.{subst}
use cekat_event_sdk.Base.{
  Text, List, [], ◌∷◌, Option, none, some, between, split, ℕ, ◌≤◌, ◌≡◌, inl, inr, Bool, true, false,
  ◌&&◌, if◌then◌else◌, arith, Bool-cases,
}
use cekat_event_sdk.Timestamps.{Date}
use cekat_event_sdk.Matrix.Dates.{
  days_in_month, date, number, has_full_form, has_month_form, all_ascii, full_parts, from_isoformat,
  month_parts, read_date,
}

-- A day of the calendar.
pub record IsDate (d : Date) : Type 0 where
  pub some_year : 1 ≤ d.year
  pub some_month : 1 ≤ d.month
  pub last_month : d.month ≤ 12
  pub some_day : 1 ≤ d.day
  pub last_day : d.day ≤ days_in_month d.year d.month

date-IsDate : (year month day : ℕ) (d : Date) → date year month day ≡ some d → IsDate d
unfolding date
date-IsDate year month day d h =
    elim (Bool-cases
      (between 1 9999 year && between 1 12 month && between 1 (days_in_month year month) day)) [
        | inl valid ↦
            let h' : some (record { year = year; month = month; day = day }) ≡ some d =
              rw valid at h in
            let same : record { year = year; month = month; day = day } ≡ d = cc in
            subst IsDate same (record {
              some_year = ground arith;
              some_month = ground arith;
              last_month = ground arith;
              some_day = ground arith;
              last_day = ground arith;
            })
        | inr invalid ↦ absurd (let h' : none ≡ some d = rw invalid at h in cc)
      ]

if-some {ℓ} :
    {A : Type ℓ} (b : Bool) (o : Option A) {a : A} → (if b then o else none) ≡ some a → o ≡ some a
if-some true o h = h
if-some false o h = cc

module _ (digit_value : ℕ → Option ℕ) where
  full_parts-IsDate :
      (parts : List Text) (d : Date) → full_parts digit_value parts ≡ some d → IsDate d
  unfolding full_parts
  full_parts-IsDate [] d h = cc
  full_parts-IsDate (y ∷ []) d h = cc
  full_parts-IsDate (y ∷ m ∷ []) d h = cc
  full_parts-IsDate (y ∷ m ∷ n ∷ []) d h =
      date-IsDate (number digit_value 0 y) (number digit_value 0 m) (number digit_value 0 n) d h
  full_parts-IsDate (y ∷ m ∷ n ∷ e ∷ rest) d h = cc

  month_parts-IsDate :
      (parts : List Text) (d : Date) → month_parts digit_value parts ≡ some d → IsDate d
  unfolding month_parts
  month_parts-IsDate [] d h = cc
  month_parts-IsDate (y ∷ []) d h = cc
  month_parts-IsDate (y ∷ m ∷ []) d h =
      let year = number digit_value 0 y in
      let month = number digit_value 0 m in
      date-IsDate year month (days_in_month year month) d
        (if-some (between 1 12 month) (date year month (days_in_month year month)) h)
  month_parts-IsDate (y ∷ m ∷ n ∷ rest) d h = cc

  -- A text that is read as a date is one of the calendar.
  pub read_date-IsDate : (value : Text) (d : Date) → read_date digit_value value ≡ some d → IsDate d
  unfolding read_date from_isoformat
  read_date-IsDate value d h = elim (Bool-cases (has_full_form digit_value value)) [
    | inl full ↦ full_parts-IsDate (split b'-' value) d (
        if-some (all_ascii digit_value value) (full_parts digit_value (split b'-' value))
          (rw full at h))
    | inr other ↦ month_parts-IsDate (split b'-' value) d (
        if-some (has_month_form digit_value value) (month_parts digit_value (split b'-' value))
          (rw other at h))
  ]
