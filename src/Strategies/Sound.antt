-- ===== src/Strategies/Sound.antt =====
-- The signals of every strategy of core/strategies are sound: they carry its name, what it was asked
-- and levels in order.
use pypoc.Strategies.Reversion.{
  mean_reversion, rsi_bounce, vix_spike_bounce, supertrend, supertrend_short, MeanReversion, Bounce,
  Supertrend, SupertrendShort,
}
use pypoc.Strategies.Momentum.{
  ema_crossover, rsi_momentum, momentum_strength, gap_and_hold, bb_squeeze, EmaCrossover,
  RsiMomentum, MomentumStrength, GapAndHold, BbSqueeze,
}
use pypoc.Strategies.Breakouts.{
  trend_breakout, volume_breakout_confirm, obv_trend, nr_pattern, volatility_compression,
  TrendBreakout, VolumeBreakoutConfirm, ObvTrend, NrPatternBreakout, VolatilityCompression,
}
use pypoc.Prelude.{List, [], ◌∷◌, arith}
use pypoc.Numbers.{Float, IsExact}
use pypoc.Types.{trend, range, volatile, Candle}
use pypoc.Strategies.Verdict.{Gives}
use pypoc.Strategies.Frame.{Pandas}
use pypoc.Strategies.Entry.{Asked}
use pypoc.Strategies.Levels.{IsSound, AtLeastOne, above_stop, below_stop, at_risk, at_atr, between}
use pypoc.Strategies.Chains.{chain}

module _ {F : Type 0} ⦃f : Float F⦄ ⦃pd : Pandas F⦄ (exact : IsExact F) (asked : Asked)
    (candles : List (Candle F)) where
  pub trend_breakout-IsSound :
      (s : TrendBreakout F)
      → AtLeastOne s.atr_stop_multiplier
      → AtLeastOne s.target_r_multiple
      → Gives (IsSound "trend_breakout" (trend ∷ []) asked) (trend_breakout s asked candles)
  unfolding trend_breakout
  trend_breakout-IsSound s stops targets = search (chain, at_atr exact) depth 40

  pub volume_breakout_confirm-IsSound :
      (s : VolumeBreakoutConfirm F)
      → AtLeastOne s.target_r_multiple
      → Gives
          (IsSound "volume_breakout_confirm" (trend ∷ []) asked)
          (volume_breakout_confirm s asked candles)
  unfolding volume_breakout_confirm
  volume_breakout_confirm-IsSound s targets = search (chain, at_risk exact) depth 40

  pub obv_trend-IsSound :
      (s : ObvTrend F)
      → AtLeastOne s.atr_stop_multiplier
      → AtLeastOne s.target_r_multiple
      → Gives (IsSound "obv_trend" (trend ∷ []) asked) (obv_trend s asked candles)
  unfolding obv_trend
  obv_trend-IsSound s stops targets = search (chain, at_atr exact) depth 40

  pub nr_pattern-IsSound :
      (s : NrPatternBreakout F)
      → AtLeastOne s.target_r_multiple
      → Gives (IsSound "nr_pattern" (trend ∷ range ∷ []) asked) (nr_pattern s asked candles)
  unfolding nr_pattern
  nr_pattern-IsSound s targets = search (chain, at_risk exact) depth 40

  pub volatility_compression-IsSound :
      (s : VolatilityCompression)
      → Gives
          (IsSound "volatility_compression" (volatile ∷ []) asked)
          (volatility_compression s asked candles)
  unfolding volatility_compression
  volatility_compression-IsSound s =
      let stops = exact.one_le_ratio 15 10 (omega arith) (omega arith) in
      let targets = exact.one_le_ratio 20 10 (omega arith) (omega arith) in
      search (chain, at_atr exact) depth 40

  pub ema_crossover-IsSound :
      (s : EmaCrossover F)
      → AtLeastOne s.atr_stop_multiplier
      → AtLeastOne s.target_r_multiple
      → Gives (IsSound "ema_crossover" (trend ∷ []) asked) (ema_crossover s asked candles)
  unfolding ema_crossover
  ema_crossover-IsSound s stops targets = search (chain, at_atr exact) depth 40

  pub rsi_momentum-IsSound :
      (s : RsiMomentum F)
      → AtLeastOne s.atr_stop_multiplier
      → AtLeastOne s.target_r_multiple
      → Gives (IsSound "rsi_momentum" (trend ∷ []) asked) (rsi_momentum s asked candles)
  unfolding rsi_momentum
  rsi_momentum-IsSound s stops targets = search (chain, at_atr exact) depth 40

  pub momentum_strength-IsSound :
      (s : MomentumStrength F)
      → AtLeastOne s.target_r_multiple
      → Gives (IsSound "momentum_strength" (trend ∷ []) asked) (momentum_strength s asked candles)
  unfolding momentum_strength
  momentum_strength-IsSound s targets = search (chain, at_risk exact) depth 40

  pub gap_and_hold-IsSound :
      (s : GapAndHold F)
      → AtLeastOne s.target_r_multiple
      → Gives (IsSound "gap_and_hold" (trend ∷ range ∷ []) asked) (gap_and_hold s asked candles)
  unfolding gap_and_hold
  gap_and_hold-IsSound s targets = search (chain, at_risk exact) depth 40

  pub bb_squeeze-IsSound :
      (s : BbSqueeze F)
      → AtLeastOne s.atr_stop_multiplier
      → AtLeastOne s.target_r_multiple
      → Gives (IsSound "bb_squeeze" (trend ∷ range ∷ []) asked) (bb_squeeze s asked candles)
  unfolding bb_squeeze
  bb_squeeze-IsSound s stops targets = search (chain, at_atr exact) depth 40

  pub mean_reversion-IsSound :
      (s : MeanReversion F)
      → Gives (IsSound "mean_reversion" (range ∷ []) asked) (mean_reversion s asked candles)
  unfolding mean_reversion
  mean_reversion-IsSound s = search (chain, between exact) depth 40

  pub rsi_bounce-IsSound :
      (s : Bounce F)
      → AtLeastOne s.target_r_multiple
      → Gives (IsSound "rsi_bounce" (range ∷ volatile ∷ []) asked) (rsi_bounce s asked candles)
  unfolding rsi_bounce
  rsi_bounce-IsSound s targets = search (chain, at_risk exact) depth 40

  pub vix_spike_bounce-IsSound :
      (s : Bounce F)
      → AtLeastOne s.target_r_multiple
      → Gives (IsSound "vix_spike_bounce" (volatile ∷ []) asked) (vix_spike_bounce s asked candles)
  unfolding vix_spike_bounce
  vix_spike_bounce-IsSound s targets = search (chain, at_risk exact) depth 40

  pub supertrend-IsSound :
      (s : Supertrend F)
      → AtLeastOne s.target_r_multiple
      → Gives (IsSound "supertrend" (trend ∷ volatile ∷ []) asked) (supertrend s asked candles)
  unfolding supertrend
  supertrend-IsSound s targets = search (chain, above_stop exact) depth 40

  pub supertrend_short-IsSound :
      (s : SupertrendShort F)
      → AtLeastOne s.target_r_multiple
      → Gives
          (IsSound "supertrend_short" (volatile ∷ trend ∷ []) asked)
          (supertrend_short s asked candles)
  unfolding supertrend_short
  supertrend_short-IsSound s targets = search (chain, below_stop exact) depth 40
