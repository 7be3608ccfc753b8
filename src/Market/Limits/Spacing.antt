-- ===== src/Market/Limits/Spacing.antt =====
-- `nse_rate_limit` of core/data/nse_rate_limiter.py keeps calls apart.
use pypoc.Prelude.{Option, none, some, List, [], ◌∷◌}
use pypoc.Prelude.Int.{◌+ℤ◌, ◌≤ℤ◌}
use pypoc.Numbers.{Float, IsExact}
use pypoc.Market.Limits.{min_interval, rate_limit}

module _ {F : Type 0} ⦃f : Float F⦄ (exact : IsExact F) where
  open exact use {units}

  -- What the clock and `time.sleep` promise of the two readings of one call: time does not go back,
  -- and a sleep lasts at least as long as it is asked to.
  abbrev pub Slept : Option F → F → F → Type 0
  Slept none now wake = units now ≤ℤ units wake
  Slept (some s) now wake = units now +ℤ units s ≤ℤ units wake

  -- The readings of a run of calls, each with the state that the calls before it have left.
  abbrev pub Timed : F → List (F × F) → Type 0
  Timed last_call [] = Unit
  Timed last_call ((now, wake) ∷ calls) =
      let m = rate_limit now wake last_call in Slept m.0 now wake × Timed m.1 calls

  -- Each function is called at least two seconds after the one before.
  abbrev pub Spaced : F → List (F × F) → Type 0
  Spaced before [] = Unit
  Spaced before ((now, wake) ∷ calls) =
      (units before +ℤ units min_interval ≤ℤ units wake) × Spaced wake calls
