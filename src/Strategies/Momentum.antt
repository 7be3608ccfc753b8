-- ===== src/Strategies/Momentum.antt =====
-- Trend following: ema_crossover.py, rsi_momentum.py, momentum_strength.py, gap_and_hold.py and
-- bb_squeeze.py of core/strategies. A rationale keeps its text without the numbers.
use pypoc.Prelude.{
  List, ◌∷◌, [], ◌&&◌, ◌||◌, true, false, ◌+◌, ℕ, not, Bool, ltb, length, leb, zip_with,
}
use pypoc.Numbers.{Float, zero_f}
use pypoc.Types.{Candle, Signal, trend, range, buy}
use pypoc.Strategies.Verdict.{Verdict, value, skip_if, ◌>>=◌, ◌>>◌}
use pypoc.Strategies.Frame.{Pandas, opens, closes, volumes, iloc, last_ones, ones_before, divide}
use pypoc.Strategies.Indicators.{atr, rsi, volume_ratio, bollinger}
use pypoc.Strategies.Entry.{Asked, signal_of, supports, max_ℕ}

pub record EmaCrossover (F : Type 0) : Type 0 where
  pub fast_period : ℕ
  pub slow_period : ℕ
  pub atr_period : ℕ
  pub atr_stop_multiplier : F
  pub target_r_multiple : F
  pub volume_confirmation : Bool

pub record RsiMomentum (F : Type 0) : Type 0 where
  pub rsi_period : ℕ
  pub rsi_pullback_low : F
  pub rsi_pullback_high : F
  pub trend_ema_period : ℕ
  pub atr_period : ℕ
  pub atr_stop_multiplier : F
  pub target_r_multiple : F
  pub volume_confirm_ratio : F

pub record MomentumStrength (F : Type 0) : Type 0 where
  pub rsi_period : ℕ
  pub rsi_momentum_low : F
  pub rsi_momentum_high : F
  pub dma_period : ℕ
  pub short_dma_period : ℕ
  pub atr_period : ℕ
  pub atr_stop_multiplier : F
  pub target_r_multiple : F
  pub volume_confirm_ratio : F

pub record GapAndHold (F : Type 0) : Type 0 where
  pub gap_pct_min : F
  pub volume_avg_period : ℕ
  pub volume_ratio_min : F
  pub atr_period : ℕ
  pub atr_stop_buffer : F
  pub target_r_multiple : F

pub record BbSqueeze (F : Type 0) : Type 0 where
  pub bb_period : ℕ
  pub bb_std : F
  pub squeeze_lookback : ℕ
  pub atr_period : ℕ
  pub atr_stop_multiplier : F
  pub target_r_multiple : F
  pub stock_dma_period : ℕ

module _ {F : Type 0} ⦃f : Float F⦄ ⦃pd : Pandas F⦄ where
  unfoldable pub ema_crossover : EmaCrossover F → Asked → List (Candle F) → Verdict (Signal F)
  ema_crossover s asked candles = do
    skip_if (not (supports (trend ∷ []) asked.regime))
    skip_if (ltb (length candles) (max_ℕ s.slow_period s.atr_period + 3))
    let fast_ema = pd.ewm_span s.fast_period (closes candles)
    let slow_ema = pd.ewm_span s.slow_period (closes candles)
    fast_before ← iloc 2 fast_ema
    slow_before ← iloc 2 slow_ema
    fast ← iloc 1 fast_ema
    slow ← iloc 1 slow_ema
    skip_if (not (f.le fast_before slow_before && f.lt slow fast))
    volume ← iloc 1 (volumes candles)
    let avg_vol = pd.mean (last_ones 20 (volumes candles))
    skip_if (
        (s.volume_confirmation && leb 20 (length candles))
        && (f.lt zero_f avg_vol && f.lt volume avg_vol))
    latest_close ← iloc 1 (closes candles)
    latest_atr ← iloc 1 (atr candles s.atr_period)
    skip_if (pd.is_na latest_atr || f.le latest_atr zero_f)
    let stop = f.sub latest_close (f.mul s.atr_stop_multiplier latest_atr)
    let risk = f.sub latest_close stop
    let target = f.add latest_close (f.mul s.target_r_multiple risk)
    value (
        signal_of "ema_crossover" buy asked latest_close stop target (f.ratio 65 100)
          "EMA crossed above EMA")

  unfoldable pub rsi_momentum : RsiMomentum F → Asked → List (Candle F) → Verdict (Signal F)
  rsi_momentum s asked candles = do
    skip_if (not (supports (trend ∷ []) asked.regime))
    skip_if (ltb (length candles) (max_ℕ s.rsi_period (max_ℕ s.trend_ema_period s.atr_period) + 3))
    latest_close ← iloc 1 (closes candles)
    let trend_ema = pd.ewm_span s.trend_ema_period (closes candles)
    ema ← iloc 1 trend_ema
    skip_if (f.le latest_close ema)
    ema_before ← iloc 5 trend_ema
    skip_if (f.le ema ema_before)
    latest_rsi ← iloc 1 (rsi candles s.rsi_period)
    skip_if (pd.is_na latest_rsi)
    skip_if (not (f.le s.rsi_pullback_low latest_rsi && f.le latest_rsi s.rsi_pullback_high))
    prev_rsi ← iloc 2 (rsi candles s.rsi_period)
    skip_if (not (pd.is_na prev_rsi) && f.le latest_rsi prev_rsi)
    vr ← iloc 1 (volume_ratio candles 20)
    skip_if (pd.is_na vr || f.lt vr s.volume_confirm_ratio)
    latest_atr ← iloc 1 (atr candles s.atr_period)
    skip_if (pd.is_na latest_atr || f.le latest_atr zero_f)
    let stop = f.sub latest_close (f.mul s.atr_stop_multiplier latest_atr)
    let risk = f.sub latest_close stop
    let target = f.add latest_close (f.mul s.target_r_multiple risk)
    value (
        signal_of "rsi_momentum" buy asked latest_close stop target (f.ratio 6 10)
          "RSI pullback, price above EMA")

  unfoldable pub momentum_strength :
      MomentumStrength F → Asked → List (Candle F) → Verdict (Signal F)
  momentum_strength s asked candles = do
    skip_if (not (supports (trend ∷ []) asked.regime))
    skip_if (
        ltb (length candles)
          (max_ℕ s.rsi_period (max_ℕ s.dma_period (max_ℕ s.short_dma_period s.atr_period)) + 5))
    latest_close ← iloc 1 (closes candles)
    let dma = pd.rolling_mean s.dma_period (closes candles)
    latest_dma ← iloc 1 dma
    skip_if (pd.is_na latest_dma)
    skip_if (f.le latest_close latest_dma)
    skip_if (ltb (length (pd.drop_na dma)) 6)
    dma_before ← iloc 6 dma
    skip_if (f.le latest_dma dma_before)
    latest_short_dma ← iloc 1 (pd.rolling_mean s.short_dma_period (closes candles))
    skip_if (pd.is_na latest_short_dma)
    skip_if (f.le latest_close latest_short_dma)
    latest_rsi ← iloc 1 (rsi candles s.rsi_period)
    skip_if (pd.is_na latest_rsi)
    skip_if (not (f.le s.rsi_momentum_low latest_rsi && f.le latest_rsi s.rsi_momentum_high))
    vr ← iloc 1 (volume_ratio candles 20)
    skip_if (pd.is_na vr || f.lt vr s.volume_confirm_ratio)
    latest_atr ← iloc 1 (atr candles s.atr_period)
    skip_if (pd.is_na latest_atr || f.le latest_atr zero_f)
    let stop = f.sub latest_close (f.mul s.atr_stop_multiplier latest_atr)
    let risk = f.sub latest_close stop
    skip_if (f.le risk zero_f)
    let target = f.add latest_close (f.mul s.target_r_multiple risk)
    value (
        signal_of "momentum_strength" buy asked latest_close stop target (f.ratio 65 100)
          "Momentum zone: RSI in zone, price above rising DMA")

  unfoldable pub gap_and_hold : GapAndHold F → Asked → List (Candle F) → Verdict (Signal F)
  gap_and_hold s asked candles = do
    skip_if (not (supports (trend ∷ range ∷ []) asked.regime))
    skip_if (ltb (length candles) (max_ℕ s.volume_avg_period s.atr_period + 3))
    latest_close ← iloc 1 (closes candles)
    latest_open ← iloc 1 (opens candles)
    prev_close ← iloc 2 (closes candles)
    gap_pct ← divide (f.sub latest_open prev_close) prev_close
    skip_if (f.lt gap_pct s.gap_pct_min)
    skip_if (f.lt latest_close latest_open)
    vol_avg_val ← iloc 1 (pd.rolling_mean s.volume_avg_period (volumes candles))
    skip_if (pd.is_na vol_avg_val || f.le vol_avg_val zero_f)
    volume ← iloc 1 (volumes candles)
    skip_if (f.lt (f.div volume vol_avg_val) s.volume_ratio_min)
    latest_atr ← iloc 1 (atr candles s.atr_period)
    skip_if (pd.is_na latest_atr || f.le latest_atr zero_f)
    let stop = f.sub prev_close (f.mul s.atr_stop_buffer latest_atr)
    let risk = f.sub latest_close stop
    skip_if (f.le risk zero_f)
    let target = f.add latest_close (f.mul s.target_r_multiple risk)
    value (
        signal_of "gap_and_hold" buy asked latest_close stop target (f.ratio 65 100)
          "Gap-and-hold: open gapped above prev close, held")

  -- Whether the average fell by more than a percent over five bars; the older value is read only if
  -- the newer one is a number.
  unfoldable pub dma_falls : List F → Verdict Bool
  dma_falls dma = do
    now ← iloc 1 dma
    elim (pd.is_na now) [
      | true ↦ value false
      | false ↦ iloc 6 dma >>= λ before.
          value (not (pd.is_na before) && f.lt now (f.mul before (f.ratio 99 100)))
    ]

  unfoldable pub bb_squeeze : BbSqueeze F → Asked → List (Candle F) → Verdict (Signal F)
  bb_squeeze s asked candles = do
    skip_if (not (supports (trend ∷ range ∷ []) asked.regime))
    skip_if (ltb (length candles) (max_ℕ s.bb_period (max_ℕ s.squeeze_lookback s.atr_period) + 3))
    falls ← dma_falls (pd.rolling_mean s.stock_dma_period (closes candles))
    skip_if falls
    let ma = (bollinger candles s.bb_period s.bb_std).0
    let upper = (bollinger candles s.bb_period s.bb_std).1
    let lower = (bollinger candles s.bb_period s.bb_std).2
    let bb_width = zip_with f.div (zip_with f.sub upper lower) ma
    prev_width ← iloc 2 bb_width
    let min_width_lookback = pd.minimum (ones_before s.squeeze_lookback bb_width)
    skip_if (pd.is_na prev_width || pd.is_na min_width_lookback)
    skip_if (not (f.le prev_width (f.mul min_width_lookback (f.ratio 105 100))))
    latest_close ← iloc 1 (closes candles)
    latest_upper ← iloc 1 upper
    prev_close ← iloc 2 (closes candles)
    prev_upper ← iloc 2 upper
    skip_if (pd.is_na latest_upper || pd.is_na prev_upper)
    skip_if (not (f.le prev_close prev_upper && f.lt latest_upper latest_close))
    latest_atr ← iloc 1 (atr candles s.atr_period)
    skip_if (pd.is_na latest_atr || f.le latest_atr zero_f)
    let stop = f.sub latest_close (f.mul s.atr_stop_multiplier latest_atr)
    let risk = f.sub latest_close stop
    let target = f.add latest_close (f.mul s.target_r_multiple risk)
    value (
        signal_of "bb_squeeze" buy asked latest_close stop target (f.ratio 65 100)
          "BB squeeze breakout: width was at low, now close above upper")
