-- ===== src/Strategies/Breakouts.antt =====
-- Breakouts: trend_breakout.py, volume_breakout_confirm.py, obv_trend.py, nr_pattern.py and
-- volatility_compression.py of core/strategies. A rationale keeps its text without the numbers.
use pypoc.Prelude.{
  List, Bool, ◌∷◌, [], if◌then◌else◌, ◌&&◌, ◌||◌, ◌+◌, ℕ, not, zip_with, ltb, length, map, keep,
}
use pypoc.Prelude.Int.{pos, negsuc}
use pypoc.Numbers.{Float, zero_f}
use pypoc.Types.{Candle, Signal, trend, range, volatile, buy}
use pypoc.Strategies.Verdict.{Verdict, value, skip_if, ◌>>=◌, ◌>>◌}
use pypoc.Strategies.Frame.{Pandas, highs, lows, closes, volumes, iloc, last_ones, ones_before}
use pypoc.Strategies.Indicators.{atr, donchian, volume_ratio}
use pypoc.Strategies.Entry.{Asked, signal_of, supports, max_ℕ}

pub record TrendBreakout (F : Type 0) : Type 0 where
  pub donchian_period : ℕ
  pub atr_period : ℕ
  pub atr_stop_multiplier : F
  pub target_r_multiple : F
  pub volume_confirm_ratio : F

pub record VolumeBreakoutConfirm (F : Type 0) : Type 0 where
  pub donchian_period : ℕ
  pub volume_avg_period : ℕ
  pub volume_spike_min : F
  pub close_quality_pct : F
  pub dma_period : ℕ
  pub atr_period : ℕ
  pub atr_stop_multiplier : F
  pub target_r_multiple : F

pub record ObvTrend (F : Type 0) : Type 0 where
  pub breakout_period : ℕ
  pub atr_period : ℕ
  pub atr_stop_multiplier : F
  pub target_r_multiple : F

pub record NrPatternBreakout (F : Type 0) : Type 0 where
  pub nr_lookback : ℕ
  pub bullish_close_pct : F
  pub atr_period : ℕ
  pub target_r_multiple : F

pub record VolatilityCompression : Type 0 where
  pub nr_lookback : ℕ

module _ {F : Type 0} ⦃f : Float F⦄ ⦃pd : Pandas F⦄ where
  unfoldable pub trend_breakout : TrendBreakout F → Asked → List (Candle F) → Verdict (Signal F)
  trend_breakout s asked candles = do
    skip_if (not (supports (trend ∷ []) asked.regime))
    skip_if (ltb (length candles) (max_ℕ s.donchian_period s.atr_period + 2))
    latest_close ← iloc 1 (closes candles)
    prev_upper ← iloc 2 (donchian candles s.donchian_period).0
    latest_atr ← iloc 1 (atr candles s.atr_period)
    skip_if (pd.is_na prev_upper)
    skip_if (pd.is_na latest_atr || f.le latest_atr zero_f)
    vr ← iloc 1 (volume_ratio candles 20)
    skip_if (pd.is_na vr || f.lt vr s.volume_confirm_ratio)
    skip_if (f.le latest_close prev_upper)
    let stop = f.sub latest_close (f.mul s.atr_stop_multiplier latest_atr)
    let risk = f.sub latest_close stop
    let target = f.add latest_close (f.mul s.target_r_multiple risk)
    value (
        signal_of "trend_breakout" buy asked latest_close stop target (f.ratio 6 10)
          "Donchian breakout above, ATR")

  unfoldable pub volume_breakout_confirm :
      VolumeBreakoutConfirm F → Asked → List (Candle F) → Verdict (Signal F)
  volume_breakout_confirm s asked candles = do
    skip_if (not (supports (trend ∷ []) asked.regime))
    skip_if (
        ltb (length candles) (
          max_ℕ s.donchian_period (max_ℕ s.volume_avg_period (max_ℕ s.dma_period s.atr_period))
          + 3))
    latest_close ← iloc 1 (closes candles)
    latest_high ← iloc 1 (highs candles)
    latest_low ← iloc 1 (lows candles)
    dma_val ← iloc 1 (pd.rolling_mean s.dma_period (closes candles))
    skip_if (pd.is_na dma_val || f.le latest_close dma_val)
    prev_upper ← iloc 2 (donchian candles s.donchian_period).0
    skip_if (pd.is_na prev_upper || f.le latest_close prev_upper)
    vol_avg_val ← iloc 1 (pd.rolling_mean s.volume_avg_period (volumes candles))
    skip_if (pd.is_na vol_avg_val || f.le vol_avg_val zero_f)
    volume ← iloc 1 (volumes candles)
    skip_if (f.lt (f.div volume vol_avg_val) s.volume_spike_min)
    let bar_range = f.sub latest_high latest_low
    skip_if (not (f.lt zero_f bar_range))
    skip_if (f.lt (f.div (f.sub latest_close latest_low) bar_range) s.close_quality_pct)
    latest_atr ← iloc 1 (atr candles s.atr_period)
    skip_if (pd.is_na latest_atr || f.le latest_atr zero_f)
    let stop = f.sub latest_close (f.mul s.atr_stop_multiplier latest_atr)
    let risk = f.sub latest_close stop
    skip_if (f.le risk zero_f)
    let target = f.add latest_close (f.mul s.target_r_multiple risk)
    value (
        signal_of "volume_breakout_confirm" buy asked latest_close stop target (f.ratio 7 10)
          "Volume breakout: close above Donchian upper")

  -- 1, -1 or 0, by the signum
  abbrev pub signum : F → F
  signum x =
      if f.lt zero_f x
      then f.of_int (pos 1)
      else if f.lt x zero_f
      then f.of_int (negsuc 0)
      else zero_f

  unfoldable pub obv : List (Candle F) → List F
  obv candles = pd.cumsum (zip_with f.mul (volumes candles) (map signum (pd.diff (closes candles))))

  unfoldable pub obv_trend : ObvTrend F → Asked → List (Candle F) → Verdict (Signal F)
  obv_trend s asked candles = do
    skip_if (not (supports (trend ∷ []) asked.regime))
    skip_if (ltb (length candles) (max_ℕ s.breakout_period s.atr_period + 3))
    latest_close ← iloc 1 (closes candles)
    let prev_high_n = pd.maximum (ones_before s.breakout_period (closes candles))
    latest_obv ← iloc 1 (obv candles)
    let prev_obv_high_n = pd.maximum (ones_before s.breakout_period (obv candles))
    skip_if (pd.is_na prev_high_n || pd.is_na prev_obv_high_n)
    skip_if (f.le latest_close prev_high_n)
    skip_if (f.lt latest_obv prev_obv_high_n)
    latest_atr ← iloc 1 (atr candles s.atr_period)
    skip_if (pd.is_na latest_atr || f.le latest_atr zero_f)
    let stop = f.sub latest_close (f.mul s.atr_stop_multiplier latest_atr)
    let risk = f.sub latest_close stop
    let target = f.add latest_close (f.mul s.target_r_multiple risk)
    value (
        signal_of "obv_trend" buy asked latest_close stop target (f.ratio 7 10)
          "OBV-confirmed breakout")

  -- `x == y`, as floats compare
  abbrev pub same : F → F → Bool
  same x y = f.le x y && f.le y x

  -- `high - low`
  abbrev pub ranges : List (Candle F) → List F
  ranges candles = zip_with f.sub (highs candles) (lows candles)

  -- Not the narrowest of the bars, or as narrow as another one.
  abbrev pub is_wide : F → List F → Bool
  is_wide current lookback =
      f.le (pd.minimum lookback) current
      && (f.lt (pd.minimum lookback) current
          || ltb 1 (length (keep (λ r. same r current) lookback)))

  unfoldable pub nr_pattern : NrPatternBreakout F → Asked → List (Candle F) → Verdict (Signal F)
  nr_pattern s asked candles = do
    skip_if (not (supports (trend ∷ range ∷ []) asked.regime))
    skip_if (ltb (length candles) (max_ℕ s.nr_lookback s.atr_period + 3))
    current_range ← iloc 1 (ranges candles)
    skip_if (f.le current_range zero_f)
    skip_if (is_wide current_range (last_ones s.nr_lookback (ranges candles)))
    current_low ← iloc 1 (lows candles)
    current_close ← iloc 1 (closes candles)
    let bullish_threshold =
        f.add current_low (f.mul (f.sub (f.of_int (pos 1)) s.bullish_close_pct) current_range)
    skip_if (f.lt current_close bullish_threshold)
    prev_high ← iloc 2 (highs candles)
    skip_if (f.le current_close prev_high)
    latest_atr ← iloc 1 (atr candles s.atr_period)
    skip_if (pd.is_na latest_atr || f.le latest_atr zero_f)
    let risk = f.sub current_close current_low
    skip_if (f.le risk zero_f)
    let target = f.add current_close (f.mul s.target_r_multiple risk)
    value (
        signal_of "nr_pattern" buy asked current_close current_low target (f.ratio 60 100)
          "NR breakout: range narrowest, close above prev high")

  unfoldable pub volatility_compression :
      VolatilityCompression → Asked → List (Candle F) → Verdict (Signal F)
  volatility_compression s asked candles = do
    skip_if (not (supports (volatile ∷ []) asked.regime))
    skip_if (ltb (length candles) (s.nr_lookback + 5))
    narrow ← iloc 1 (last_ones s.nr_lookback (ranges candles))
    skip_if (not (same narrow (pd.minimum (last_ones s.nr_lookback (ranges candles)))))
    a ← iloc 1 (atr candles 14)
    prev_high ← iloc 2 (highs candles)
    close ← iloc 1 (closes candles)
    skip_if (pd.is_na a || f.le a zero_f)
    skip_if (not (f.lt prev_high close))
    let stop = f.sub close (f.mul (f.ratio 15 10) a)
    let target = f.add close (f.mul (f.ratio 20 10) (f.sub close stop))
    value (
        signal_of "volatility_compression" buy asked close stop target (f.ratio 5 10)
          "NR compression then break above")
