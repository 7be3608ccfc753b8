-- ===== src/Market/Limits.antt =====
-- core/data/nse_rate_limiter.py: the gap between calls of the exchange's API, retries, and the
-- circuit breaker. Readings of the monotonic clock and the results of the wrapped function are
-- arguments; the locks make each operation one step.
pub mod Spacing
pub mod Attempts
pub mod Phases
use pypoc.Prelude.{
  ℕ, zero, suc, ◌+◌, ◌^◌, Bool, true, false, not, ◌&&◌, ◌||◌, Option, none, some, List, [], ◌∷◌,
  leb, nat_beq, if◌then◌else◌,
}
use pypoc.Prelude.Int.{ℤ, pos, negsuc}
use pypoc.Prelude.Result.{Result, ok, raises, Exn, type_error}
use pypoc.Numbers.{Float, zero_f, min_f}

module _ {F : Type 0} ⦃f : Float F⦄ where
  -- `_MIN_INTERVAL`
  abbrev pub min_interval : F
  min_interval = f.of_int (pos 2)

  -- `wait`, from `_last_call` and the first reading
  abbrev pub wait_time : F → F → F
  wait_time last_call now = f.sub min_interval (f.sub now last_call)

  -- What `wrapper` sleeps, if it sleeps, from `_last_call` and the first reading.
  unfoldable pub sleep_of : F → F → Option F
  sleep_of last_call now =
      if f.lt zero_f (wait_time last_call now) then some (wait_time last_call now) else none

  -- What `wrapper` does before it calls the function, by its two readings of the clock: what it
  -- sleeps, and `_last_call` after it.
  unfoldable pub rate_limit : F → F → F → Option F × F
  rate_limit now wake last_call = (sleep_of last_call now, wake)

  -- The delay of attempt `n` of `nse_retry`.
  abbrev pub delay : F → ℕ → F
  delay base_delay attempt =
      min_f (f.mul base_delay (f.of_int (pos (2 ^ attempt)))) (f.of_int (pos 30))

  -- The loop of `nse_retry` from an attempt, with the retries that are left. `func n` is what call `n`
  -- of the function returns or raises. The sleeps are listed.
  unfoldable pub retry_from : {A : Type 0} → F → (ℕ → Result A) → ℕ → ℕ → Result A × List F
  retry_from base_delay func zero attempt = elim (func attempt) [
    | ok v ↦ (ok v, [])
    | raises e ↦ (raises e, [])
  ]
  retry_from base_delay func (suc left) attempt =
      let rest = retry_from base_delay func left (suc attempt) in
      elim (func attempt) [
        | ok v ↦ (ok v, [])
        | raises e ↦ (rest.0, delay base_delay attempt ∷ rest.1)
      ]

  -- `nse_retry`: with a negative number of retries the loop is empty, and `raise None` raises.
  unfoldable pub nse_retry : {A : Type 0} → ℤ → F → (ℕ → Result A) → Result A × List F
  nse_retry (pos max_retries) base_delay func = retry_from base_delay func max_retries 0
  nse_retry (negsuc n) base_delay func = (raises type_error, [])

abbrev pub trip_threshold : ℕ
trip_threshold = 3

abbrev pub lockout_seconds : ℤ
lockout_seconds = pos 900

pub record CircuitBreaker (F : Type 0) : Type 0 where
  pub consecutive_failures : ℕ
  pub open_since : F
  pub tripped : Bool

-- `status_code in (403, 429)`
unfoldable pub is_refusal : Option ℕ → Bool
is_refusal none = false
is_refusal (some code) = nat_beq code 403 || nat_beq code 429

module _ {F : Type 0} ⦃f : Float F⦄ where
  -- `__init__` and `_reset_locked`
  abbrev pub reset_breaker : CircuitBreaker F
  reset_breaker = record { consecutive_failures = 0; open_since = zero_f; tripped = false }

  -- `is_open`, at a reading of the clock
  unfoldable pub is_open : F → CircuitBreaker F → Bool × CircuitBreaker F
  is_open now b =
      if not b.tripped
      then (false, b)
      else if f.le (f.of_int lockout_seconds) (f.sub now b.open_since)
      then (false, reset_breaker)
      else (true, b)

  unfoldable pub record_failure : Option ℕ → F → CircuitBreaker F → CircuitBreaker F
  record_failure status_code now b =
      let counted = record b { consecutive_failures = suc b.consecutive_failures } in
      if not (is_refusal status_code)
      then b
      else if leb trip_threshold counted.consecutive_failures && not b.tripped
      then record counted { tripped = true; open_since = now }
      else counted

  unfoldable pub record_success : CircuitBreaker F → CircuitBreaker F
  record_success b = reset_breaker
