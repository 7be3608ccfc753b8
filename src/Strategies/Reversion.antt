-- ===== src/Strategies/Reversion.antt =====
-- Reversion and the two sides of the supertrend: mean_reversion.py, rsi_bounce.py,
-- vix_spike_bounce.py, supertrend.py and supertrend_short.py of core/strategies. A rationale keeps
-- its text without the numbers.
use pypoc.Prelude.{
  Bool, List, ◌∷◌, [], ◌&&◌, ◌||◌, true, false, ◌+◌, ℕ, not, String, ltb, leb, length, suc,
}
use pypoc.Prelude.Int.{ℤ, pos, negsuc, leb_ℤ}
use pypoc.Numbers.{Float, zero_f}
use pypoc.Types.{Candle, Signal, trend, range, volatile, buy, sell}
use pypoc.Strategies.Verdict.{Verdict, value, skip_if, ◌>>=◌, ◌>>◌}
use pypoc.Strategies.Frame.{Pandas, opens, closes, iloc}
use pypoc.Strategies.Indicators.{atr, rsi, bollinger, volume_ratio, adx_value}
use pypoc.Strategies.Bands.{supertrend_bands}
use pypoc.Strategies.Entry.{Asked, signal_of, supports, max_ℕ}
use pypoc.Strategies.Momentum.{dma_falls}

pub record MeanReversion (F : Type 0) : Type 0 where
  pub rsi_period : ℕ
  pub rsi_oversold : F
  pub rsi_overbought : F
  pub bb_period : ℕ
  pub bb_std : F
  pub stock_dma_period : ℕ

-- `RsiBounce` and `VixSpikeBounce` have the same fields.
pub record Bounce (F : Type 0) : Type 0 where
  pub rsi_period : ℕ
  pub rsi_oversold_threshold : F
  pub dma_period : ℕ
  pub atr_period : ℕ
  pub atr_stop_multiplier : F
  pub target_r_multiple : F
  pub volume_ratio_min : F

pub record Supertrend (F : Type 0) : Type 0 where
  pub atr_period : ℕ
  pub multiplier : F
  pub target_r_multiple : F
  pub adx_period : ℕ
  pub adx_min : F
  pub volume_ratio_min : F
  pub volume_avg_period : ℕ
  pub dma_fast : ℕ
  pub dma_slow : ℕ
  pub dma_rising_lookback : ℕ

pub record SupertrendShort (F : Type 0) : Type 0 where
  pub atr_period : ℕ
  pub multiplier : F
  pub target_r_multiple : F
  pub stock_dma_period : ℕ
  pub dma_falling_lookback : ℕ
  pub return_lookback : ℕ
  pub return_threshold : F
  pub volume_spike_min : F
  pub volume_avg_period : ℕ

abbrev pub int_eq : ℤ → ℤ → Bool
int_eq a b = leb_ℤ a b && leb_ℤ b a

module _ {F : Type 0} ⦃f : Float F⦄ ⦃pd : Pandas F⦄ where
  unfoldable pub mean_reversion : MeanReversion F → Asked → List (Candle F) → Verdict (Signal F)
  mean_reversion s asked candles = do
    skip_if (not (supports (range ∷ []) asked.regime))
    skip_if (ltb (length candles) (max_ℕ s.rsi_period (max_ℕ s.bb_period s.stock_dma_period) + 2))
    falls ← dma_falls (pd.rolling_mean s.stock_dma_period (closes candles))
    skip_if falls
    close ← iloc 1 (closes candles)
    latest_rsi ← iloc 1 (rsi candles s.rsi_period)
    latest_lower ← iloc 1 (bollinger candles s.bb_period s.bb_std).2
    latest_ma ← iloc 1 (bollinger candles s.bb_period s.bb_std).0
    skip_if (pd.is_na latest_rsi || pd.is_na latest_lower)
    skip_if (
        not (f.lt latest_rsi s.rsi_oversold && f.le close (f.mul latest_lower (f.ratio 1005 1000))))
    let stop = f.mul latest_lower (f.ratio 98 100)
    skip_if (f.le latest_ma close || f.le close stop)
    value (
        signal_of "mean_reversion" buy asked close stop latest_ma (f.ratio 55 100)
          "RSI oversold + at/below BB lower")

  -- What the two bounces test after their own regimes.
  abbrev pub bounce_signal :
      String → F → String → Bounce F → Asked → List (Candle F) → Verdict (Signal F)
  bounce_signal name confidence rationale s asked candles = do
    skip_if (ltb (length candles) (max_ℕ s.rsi_period (max_ℕ s.dma_period s.atr_period) + 3))
    latest_dma ← iloc 1 (pd.rolling_mean s.dma_period (closes candles))
    latest_close ← iloc 1 (closes candles)
    skip_if (pd.is_na latest_dma || f.le latest_close latest_dma)
    latest_rsi ← iloc 1 (rsi candles s.rsi_period)
    skip_if (pd.is_na latest_rsi || f.le s.rsi_oversold_threshold latest_rsi)
    latest_open ← iloc 1 (opens candles)
    prev_close ← iloc 2 (closes candles)
    skip_if (f.le latest_close latest_open)
    skip_if (f.le latest_close prev_close)
    vr ← iloc 1 (volume_ratio candles 20)
    skip_if (pd.is_na vr || f.lt vr s.volume_ratio_min)
    latest_atr ← iloc 1 (atr candles s.atr_period)
    skip_if (pd.is_na latest_atr || f.le latest_atr zero_f)
    let stop = f.sub latest_close (f.mul s.atr_stop_multiplier latest_atr)
    let risk = f.sub latest_close stop
    skip_if (f.le risk zero_f)
    let target = f.add latest_close (f.mul s.target_r_multiple risk)
    value (signal_of name buy asked latest_close stop target confidence rationale)

  unfoldable pub rsi_bounce : Bounce F → Asked → List (Candle F) → Verdict (Signal F)
  rsi_bounce s asked candles = do
    skip_if (not (supports (range ∷ volatile ∷ []) asked.regime))
    bounce_signal "rsi_bounce" (f.ratio 65 100) "RSI oversold bounce" s asked candles

  unfoldable pub vix_spike_bounce : Bounce F → Asked → List (Candle F) → Verdict (Signal F)
  vix_spike_bounce s asked candles = do
    skip_if (not (supports (volatile ∷ []) asked.regime))
    bounce_signal "vix_spike_bounce" (f.ratio 70 100) "VIX spike bounce" s asked candles

  unfoldable pub supertrend : Supertrend F → Asked → List (Candle F) → Verdict (Signal F)
  supertrend s asked candles = do
    skip_if (not (supports (trend ∷ volatile ∷ []) asked.regime))
    skip_if (
        ltb (length candles) (
          max_ℕ s.atr_period
            (max_ℕ s.adx_period (max_ℕ s.volume_avg_period (s.dma_slow + s.dma_rising_lookback)))
          + 5))
    last ← iloc 1 (supertrend_bands candles s.atr_period s.multiplier)
    before ← iloc 2 (supertrend_bands candles s.atr_period s.multiplier)
    skip_if (not (int_eq last.direction (pos 1)) || int_eq before.direction (pos 1))
    latest_adx ← iloc 1 (adx_value candles s.adx_period)
    skip_if (pd.is_na latest_adx || f.lt latest_adx s.adx_min)
    latest_vol_ratio ← iloc 1 (volume_ratio candles s.volume_avg_period)
    skip_if (pd.is_na latest_vol_ratio || f.lt latest_vol_ratio s.volume_ratio_min)
    latest_close ← iloc 1 (closes candles)
    dma_fast_val ← iloc 1 (pd.rolling_mean s.dma_fast (closes candles))
    skip_if (pd.is_na dma_fast_val || f.le latest_close dma_fast_val)
    dma_slow_now ← iloc 1 (pd.rolling_mean s.dma_slow (closes candles))
    dma_slow_prev ← iloc (suc s.dma_rising_lookback) (pd.rolling_mean s.dma_slow (closes candles))
    skip_if (pd.is_na dma_slow_now || (pd.is_na dma_slow_prev || f.le dma_slow_now dma_slow_prev))
    latest_atr ← iloc 1 (atr candles s.atr_period)
    skip_if (pd.is_na latest_atr || f.le latest_atr zero_f)
    let stop = f.sub last.final_lower (f.mul (f.ratio 1 10) latest_atr)
    skip_if (f.le latest_close stop)
    let risk = f.sub latest_close stop
    let target = f.add latest_close (f.mul s.target_r_multiple risk)
    value (
        signal_of "supertrend" buy asked latest_close stop target (f.ratio 7 10)
          "Supertrend flipped bullish")

  -- Whether the average was falling a bar ago too.
  unfoldable pub fell_yesterday : ℕ → List F → Verdict Bool
  fell_yesterday lookback dma = elim (leb (lookback + 2) (length (pd.drop_na dma))) [
    | false ↦ value false
    | true ↦ iloc 2 dma >>= λ dma_prev. iloc (lookback + 2) dma >>= λ dma_prev_lookback. value (
        (not (pd.is_na dma_prev) && not (pd.is_na dma_prev_lookback))
        && f.lt dma_prev dma_prev_lookback)
  ]

  unfoldable pub supertrend_short : SupertrendShort F → Asked → List (Candle F) → Verdict (Signal F)
  supertrend_short s asked candles = do
    skip_if (not (supports (volatile ∷ trend ∷ []) asked.regime))
    skip_if (
        ltb (length candles) (
          max_ℕ s.atr_period (
            max_ℕ (s.stock_dma_period + s.dma_falling_lookback)
              (max_ℕ s.return_lookback s.volume_avg_period))
          + 5))
    last ← iloc 1 (supertrend_bands candles s.atr_period s.multiplier)
    skip_if (not (int_eq last.direction (negsuc 0)))
    let dma = pd.rolling_mean s.stock_dma_period (closes candles)
    dma_now ← iloc 1 dma
    dma_lookback ← iloc (suc s.dma_falling_lookback) dma
    skip_if (pd.is_na dma_now || pd.is_na dma_lookback)
    skip_if (f.le dma_lookback dma_now)
    skip_if (ltb (length candles) (s.return_lookback + 2))
    price_10d_ago ← iloc (suc s.return_lookback) (closes candles)
    latest_close ← iloc 1 (closes candles)
    skip_if (f.le price_10d_ago zero_f)
    skip_if (f.le s.return_threshold (f.div (f.sub latest_close price_10d_ago) price_10d_ago))
    latest_vol_ratio ← iloc 1 (volume_ratio candles s.volume_avg_period)
    skip_if (pd.is_na latest_vol_ratio || f.lt latest_vol_ratio s.volume_spike_min)
    fell ← fell_yesterday s.dma_falling_lookback dma
    skip_if fell
    latest_atr ← iloc 1 (atr candles s.atr_period)
    skip_if (pd.is_na latest_atr || f.le latest_atr zero_f)
    let stop = f.add last.final_upper (f.mul (f.ratio 1 10) latest_atr)
    skip_if (f.le stop latest_close)
    let risk = f.sub stop latest_close
    let target = f.sub latest_close (f.mul s.target_r_multiple risk)
    value (
        signal_of "supertrend_short" sell asked latest_close stop target (f.ratio 65 100)
          "Supertrend bearish, DMA falling")
