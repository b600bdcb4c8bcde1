-- ===== src/Retry/Delays.antt =====
-- Bounds on the delays before a retry.
use cekat_event_sdk.Base.{
  ℕ, zero, suc, ◌-◌, ◌*◌, ◌^◌, min, max, ◌≤◌, ◌<◌, ◌≡◌, refl, ◌↔◌, Text, Bool, true, false, Option,
  none, some, arith, strip,
}
use cekat_event_sdk.Objects.{Moment}
use cekat_event_sdk.Retry.{
  Seconds, infinite, finite, second, maximum_retry_after, jitter_upper_bound, parse_retry_after,
  over_cap, or_zero, retry_delay,
}

-- random.uniform stays between its arguments.
abbrev pub IsUniform : (ℕ → ℕ → ℕ) → Type 0
IsUniform uniform = (lo hi : ℕ) → lo ≤ hi → (lo ≤ uniform lo hi) × (uniform lo hi ≤ hi)

one-le-2^ : (k : ℕ) → 1 ≤ 2 ^ k
one-le-2^ zero = omega arith
one-le-2^ (suc k) = omega (arith, one-le-2^ k)

-- The bound of the k-th retry is 0.1 s doubled k - 1 times, and at most 1 s.
pub jitter_upper_bound_lem : (k : ℕ) → jitter_upper_bound (suc k) ≡ min (100000 * 2 ^ k) second
unfolding jitter_upper_bound
jitter_upper_bound_lem zero = refl
jitter_upper_bound_lem (suc zero) = refl
jitter_upper_bound_lem (suc (suc zero)) = refl
jitter_upper_bound_lem (suc (suc (suc zero))) = refl
jitter_upper_bound_lem (suc (suc (suc (suc k)))) = rw (capped k) (omega (arith, one-le-2^ k))
  where
    capped : (k : ℕ) → min (max (suc (suc (suc (suc (suc k))))) 1) 5 - 1 ≡ 4
    capped k = omega arith

pub jitter_upper_bound-le : (k : ℕ) → jitter_upper_bound k ≤ second
unfolding jitter_upper_bound
jitter_upper_bound-le k = omega arith

-- A request for more than five seconds.
abbrev pub IsTooLong : Option Seconds → Type 0
IsTooLong none = ⊥
IsTooLong (some infinite) = Unit
IsTooLong (some (finite microseconds)) = 5000000 < microseconds

over_cap_iff : (r : Option Seconds) → (over_cap r ≡ true) ↔ IsTooLong r
unfolding over_cap
over_cap_iff none = ((λ e. cc), (λ e. absurd e))
over_cap_iff (some infinite) = ((λ e. tt), (λ e. refl))
over_cap_iff (some (finite n)) = ground arith

module _ (unicode_digit : ℕ → Bool) (parsedate : Text → Option Moment) (uniform : ℕ → ℕ → ℕ)
    (now : Moment) where
  pub retry_delay-over_cap :
      (k : ℕ) (header : Option Text)
      → (retry_delay unicode_digit parsedate k header uniform now ≡ none)
        ↔ (over_cap (parse_retry_after unicode_digit parsedate header now) ≡ true)
  unfolding retry_delay
  retry_delay-over_cap k header = ground arith

  -- A retry is given up exactly when Retry-After asks for more than five seconds, in microseconds,
  -- or for a number of seconds with more than nine digits; and so never when it asks for nothing.
  pub retry_delay-none_iff :
      (k : ℕ) (header : Option Text)
      → (retry_delay unicode_digit parsedate k header uniform now ≡ none)
        ↔ IsTooLong (parse_retry_after unicode_digit parsedate header now)
  retry_delay-none_iff k header =
      let (over, given_up) = retry_delay-over_cap k header in
      let (long, capped) = over_cap_iff (parse_retry_after unicode_digit parsedate header now) in
      ((λ e. long (over e)), (λ l. given_up (capped l)))

  -- With no header there is always a delay, the jitter alone.
  pub retry_delay-no_header :
      (k : ℕ)
      → retry_delay unicode_digit parsedate k none uniform now
        ≡ some (max (uniform 0 (jitter_upper_bound k)) 0)
  unfolding retry_delay strip
  retry_delay-no_header k = refl

  pub or_zero-le : (r : Option Seconds) → over_cap r ≡ false → or_zero r ≤ maximum_retry_after
  unfolding over_cap or_zero
  or_zero-le r h = ground arith

  -- A delay is at least what the header asks for, and at most five seconds.
  pub retry_delay_bounds :
      IsUniform uniform
      → (k : ℕ) (header : Option Text) (d : ℕ)
      → retry_delay unicode_digit parsedate k header uniform now ≡ some d
      → (or_zero (parse_retry_after unicode_digit parsedate header now) ≤ d)
        × (d ≤ maximum_retry_after)
  unfolding retry_delay
  retry_delay_bounds u k header d e = ground (
    arith,
    u 0 (jitter_upper_bound k),
    jitter_upper_bound-le k,
    or_zero-le (parse_retry_after unicode_digit parsedate header now),
  )
