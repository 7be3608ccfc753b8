-- ===== src/Strategies/Indicators.antt =====
-- core/strategies/indicators.py: the indicators of a frame of candles that the strategies read.
use pypoc.Prelude.{◌∷◌, List, [], if◌then◌else◌, ◌&&◌, zip_with, ℕ, map}
use pypoc.Prelude.Int.{pos}
use pypoc.Numbers.{Float, zero_f, abs_f}
use pypoc.Types.{Candle}
use pypoc.Strategies.Frame.{Pandas, highs, lows, closes, volumes}

module _ {F : Type 0} ⦃f : Float F⦄ ⦃pd : Pandas F⦄ where
  abbrev pub hundred : F
  hundred = f.of_int (pos 100)

  -- the largest of three in a row
  abbrev pub row_max : F → F → F → F
  row_max x y z = pd.maximum (x ∷ y ∷ z ∷ [])

  -- The true range of each bar, after the close that is given beside it.
  unfoldable pub true_range : List F → List (Candle F) → List F
  true_range before candles =
      zip_with
        (λ c previous.
          row_max (f.sub c.high c.low) (abs_f (f.sub c.high previous))
            (abs_f (f.sub c.low previous)))
        candles before

  unfoldable pub atr : List (Candle F) → ℕ → List F
  atr candles period = pd.rolling_mean period (true_range (pd.shift (closes candles)) candles)

  unfoldable pub rsi : List (Candle F) → ℕ → List F
  rsi candles period =
      let delta = pd.diff (closes candles) in
      let gain = pd.rolling_mean period (map (λ d. if f.lt zero_f d then d else zero_f) delta) in
      let loss =
        map f.neg (pd.rolling_mean period (map (λ d. if f.lt d zero_f then d else zero_f) delta)) in
      let rs = zip_with f.div gain (pd.zeros_na loss) in
      map (λ r. f.sub hundred (f.div hundred (f.add (f.of_int (pos 1)) r))) rs

  -- The middle, the upper and the lower band.
  unfoldable pub bollinger : List (Candle F) → ℕ → F → List F × List F × List F
  bollinger candles period n_std =
      let ma = pd.rolling_mean period (closes candles) in
      let sd = pd.rolling_std period (closes candles) in
      let width = map (f.mul n_std) sd in (ma, zip_with f.add ma width, zip_with f.sub ma width)

  unfoldable pub donchian : List (Candle F) → ℕ → List F × List F
  donchian candles period =
      (pd.rolling_max period (highs candles), pd.rolling_min period (lows candles))

  unfoldable pub volume_ratio : List (Candle F) → ℕ → List F
  volume_ratio candles period =
      let volume = volumes candles in
      zip_with f.div volume (pd.zeros_na (pd.rolling_mean period volume))

  -- The moves that are larger than those of the other side, and up.
  abbrev pub directional : List F → List F → List F
  directional moves others =
      zip_with (λ m o. if f.lt o m && f.lt zero_f m then m else zero_f) moves others

  unfoldable pub adx_value : List (Candle F) → ℕ → List F
  adx_value candles period =
      let up = pd.diff (highs candles) in
      let down = map f.neg (pd.diff (lows candles)) in
      let atr_s =
        pd.zeros_na (pd.ewm_alpha period (true_range (pd.shift (closes candles)) candles)) in
      let di =
        λ (dm : List F). zip_with f.div (map (f.mul hundred) (pd.ewm_alpha period dm)) atr_s in
      let plus_di = di (directional up down) in
      let minus_di = di (directional down up) in
      let apart = zip_with (λ p m. f.mul hundred (abs_f (f.sub p m))) plus_di minus_di in
      pd.ewm_alpha period (zip_with f.div apart (pd.zeros_na (zip_with f.add plus_di minus_di)))
