-- ===== src/Retry/Digits.antt =====
-- Printing a number of seconds and reading it back as a Retry-After value.
use native.Mathlib.Nat.{pow-suc}
use cekat_event_sdk.Base.{
  ℕ, zero, suc, ◌+◌, ◌-◌, ◌*◌, ◌/◌, ◌%◌, ◌^◌, ◌≤◌, ◌<◌, ◌≡◌, refl, Text, Bool, true, false, Option,
  some, [], ◌∷◌, ◌++◌, ltb, if◌then◌else◌, arith, Bool-cases, inl, inr, length, length-append,
  decimal, decimal_from, strip, is_empty, is_space, HasNoSpace, strip_of_HasNoSpace,
}
use cekat_event_sdk.Objects.{Moment}
use cekat_event_sdk.Retry.{
  Seconds, finite, infinite, all_digits, number_from, parse_retry_after, second,
}

number_from-append :
    (acc : ℕ) (s t : Text) → number_from acc (s ++ t) ≡ number_from (number_from acc s) t
unfolding number_from
number_from-append acc [] t = refl
number_from-append acc (c ∷ s) t = number_from-append (acc * 10 + (c - 48)) s t

all_digits-append :
    (s t : Text) → all_digits s ≡ true → all_digits t ≡ true → all_digits (s ++ t) ≡ true
unfolding all_digits
all_digits-append [] t h k = k
all_digits-append (c ∷ s) t h k = ground (arith, all_digits-append s t)

decimal_from-value : (fuel n : ℕ) → n < fuel → number_from 0 (decimal_from fuel n) ≡ n
unfolding decimal_from number_from
decimal_from-value zero n h = elim h [ ]
decimal_from-value (suc fuel) n h = elim (Bool-cases (ltb n 10)) [
  | inl small ↦ rw small (omega arith)
  | inr large ↦
      rw (large, number_from-append 0 (decimal_from fuel (n / 10)) ((n % 10 + 48) ∷ []))
        (rw (decimal_from-value fuel (n / 10) (ground arith)) (omega arith))
]

decimal_from-digits : (fuel n : ℕ) → all_digits (decimal_from fuel n) ≡ true
unfolding decimal_from all_digits
decimal_from-digits zero n = refl
decimal_from-digits (suc fuel) n = elim (Bool-cases (ltb n 10)) [
  | inl small ↦ rw small (ground arith)
  | inr large ↦ rw large (
      all_digits-append (decimal_from fuel (n / 10)) ((n % 10 + 48) ∷ [])
        (decimal_from-digits fuel (n / 10)) (ground arith))
]

decimal_from-length : (fuel k n : ℕ) → n < 10 ^ suc k → length (decimal_from fuel n) ≤ suc k
unfolding decimal_from
decimal_from-length zero k n h = omega arith
decimal_from-length (suc fuel) zero n h = ground arith
decimal_from-length (suc fuel) (suc k) n h = elim (Bool-cases (ltb n 10)) [
  | inl small ↦ rw small (omega arith)
  | inr large ↦
      rw (large, length-append (decimal_from fuel (n / 10)) ((n % 10 + 48) ∷ []))
        (omega (arith, decimal_from-length fuel k (n / 10) (omega (arith, pow-suc 10 (suc k)))))
]

decimal_from-is_empty : (fuel n : ℕ) → is_empty (decimal_from (suc fuel) n) ≡ false
unfolding decimal_from
decimal_from-is_empty fuel n = elim (Bool-cases (ltb n 10)) [
  | inl small ↦ rw small
  | inr large ↦ rw large (is_empty-append (decimal_from fuel (n / 10)) (n % 10 + 48))
]
  where
    is_empty-append : (s : Text) (c : ℕ) → is_empty (s ++ c ∷ []) ≡ false
    is_empty-append [] c = refl
    is_empty-append (d ∷ s) c = refl

digits-HasNoSpace : (t : Text) → all_digits t ≡ true → HasNoSpace t
unfolding all_digits is_space
digits-HasNoSpace [] h = tt
digits-HasNoSpace (c ∷ t) h = (ground arith, digits-HasNoSpace t (ground arith))

-- A whole number of seconds below 10^9, written in decimal, with or without white space round it,
-- is read as that number; the pattern for dates and the clock play no part.
pub parse_retry_after-decimal :
    (unicode_digit : ℕ → Bool) (parsedate : Text → Option Moment) (now : Moment) (value : Text)
    (n : ℕ)
    → n < 1000000000
    → strip value ≡ decimal n
    → parse_retry_after unicode_digit parsedate (some value) now ≡ some (finite (n * second))
unfolding parse_retry_after decimal
parse_retry_after-decimal unicode_digit parsedate now value n h e =
    rw
      (
        e,
        decimal_from-is_empty n n,
        decimal_from-digits (suc n) n,
        decimal_from-value (suc n) n (omega arith),
      )
      (short (length (decimal_from (suc n) n)) (decimal_from-length (suc n) 8 n h))
  where
    short :
        (l : ℕ)
        → l ≤ 9
        → ◌≡◌ {A = Option Seconds}
            (some (if ltb 9 l then infinite else finite (n * 1000000)))
            (some (finite (n * 1000000)))
    short l k = ground arith

-- So a printed number survives, since its digits are no white space.
pub strip-decimal : (n : ℕ) → strip (decimal n) ≡ decimal n
unfolding decimal
strip-decimal n =
    strip_of_HasNoSpace (decimal_from (suc n) n)
      (digits-HasNoSpace _ (decimal_from-digits (suc n) n))
