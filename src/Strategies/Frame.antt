-- ===== src/Strategies/Frame.antt =====
-- What core/strategies asks of pandas and numpy, which are not modelled: a series is a list of
-- numbers, some of which are NaN. The columns of a frame of candles, and positions from the end.
use pypoc.Prelude.{
  ℕ, ◌-◌, Bool, List, [], ◌∷◌, map, length, drop, drop_last, zero, suc, leb, nat_beq, if◌then◌else◌,
}
use pypoc.Prelude.Result.{index_error, zero_division_error}
use pypoc.Numbers.{Float}
use pypoc.Types.{Candle}
use pypoc.Strategies.Verdict.{Verdict, value, fails}

pub record Pandas (F : Type 0) : Type 0 where
  -- NaN, and `pd.isna`
  pub na : F
  pub is_na : F → Bool
  -- `series.rolling(n).mean()`, and so on
  pub rolling_mean : ℕ → List F → List F
  pub rolling_std : ℕ → List F → List F
  pub rolling_max : ℕ → List F → List F
  pub rolling_min : ℕ → List F → List F
  -- `series.ewm(span=n, adjust=False).mean()` and `series.ewm(alpha=1 / n, adjust=False).mean()`
  pub ewm_span : ℕ → List F → List F
  pub ewm_alpha : ℕ → List F → List F
  -- `max()`, `min()` and `mean()` of a series or an array, and `cumsum()`
  pub maximum : List F → F
  pub minimum : List F → F
  pub mean : List F → F
  pub cumsum : List F → List F
  -- `shift()`, `diff()`, `replace(0, nan)` and `dropna()`
  pub shift : List F → List F
  pub diff : List F → List F
  pub zeros_na : List F → List F
  pub drop_na : List F → List F

module _ {A : Type 0} where
  abbrev pub element : ℕ → List A → Verdict A
  element i [] = fails index_error
  element zero (x ∷ xs) = value x
  element (suc i) (x ∷ xs) = element i xs

  -- `s.iloc[-k]`
  unfoldable pub iloc : ℕ → List A → Verdict A
  iloc k s =
      if nat_beq k 0
      then element 0 s
      else if leb k (length s)
      then element (length s - k) s
      else fails index_error

  -- `s.iloc[-k:]`
  unfoldable pub last_ones : ℕ → List A → List A
  last_ones k s = if nat_beq k 0 then s else drop (length s - k) s

  -- `s.iloc[-(k + 1):-1]`
  unfoldable pub ones_before : ℕ → List A → List A
  unfolding last_ones
  ones_before k s = drop_last (last_ones (suc k) s)

module _ {F : Type 0} where
  -- the columns
  abbrev pub opens : List (Candle F) → List F
  opens = map λ c. c.opening

  abbrev pub highs : List (Candle F) → List F
  highs = map λ c. c.high

  abbrev pub lows : List (Candle F) → List F
  lows = map λ c. c.low

  abbrev pub closes : List (Candle F) → List F
  closes = map λ c. c.close

  abbrev pub volumes : ⦃f : Float F⦄ → List (Candle F) → List F
  volumes ⦃f⦄ = map λ c. f.of_int c.volume

-- `x / y` of two Python floats
unfoldable pub divide : {F : Type 0} ⦃f : Float F⦄ → F → F → Verdict F
divide ⦃f⦄ x y = if f.is_zero y then fails zero_division_error else value (f.div x y)
