-- ===== src/Strategies/Build.antt =====
-- `_build_strategies` of core/execution/orchestrator.py: the strategies that the settings enable,
-- and how the orchestrator asks one of them. `VolumeBreakoutConfirm` and the others that are built
-- elsewhere only (`EmaCrossover`, `RsiMomentum`, `BbSqueeze`, `ObvTrend`, `Supertrend`) are no plans.
use pypoc.Prelude.{get_or, ℕ, String, Bool, Option, none, some, List, [], ◌∷◌, ◌++◌, if◌then◌else◌}
use pypoc.Numbers.{Float}
use pypoc.Types.{Regime, Candle, Signal, DateTime, trend, range, volatile}
use pypoc.Strategies.Verdict.{Verdict, result_of}
use pypoc.Strategies.Frame.{Pandas}
use pypoc.Strategies.Entry.{Asked, supports}
use pypoc.Strategies.Breakouts.{
  TrendBreakout, VolumeBreakoutConfirm, NrPatternBreakout, VolatilityCompression, trend_breakout,
  volume_breakout_confirm, nr_pattern, volatility_compression,
}
use pypoc.Strategies.Momentum.{MomentumStrength, GapAndHold, momentum_strength, gap_and_hold}
use pypoc.Strategies.Reversion.{
  MeanReversion, Bounce, SupertrendShort, mean_reversion, rsi_bounce, vix_spike_bounce,
  supertrend_short,
}
use pypoc.Agent.Decisions.{Strategy}

-- A section of `settings.strategies`: what `get` finds under a key.
pub record Section (F : Type 0) : Type 0 where
  pub enabled : Bool
  pub whole : String → Option ℕ
  pub number : String → Option F

-- An instance of a strategy.
pub data Plan (F : Type 0) : Type 0 where
  breaks_out : TrendBreakout F → Plan F
  reverts : MeanReversion F → Plan F
  compresses : VolatilityCompression → Plan F
  shorts : SupertrendShort F → Plan F
  bounces : Bounce F → Plan F
  bounces_on_vix : Bounce F → Plan F
  is_strong : MomentumStrength F → Plan F
  is_narrow : NrPatternBreakout F → Plan F
  confirms : VolumeBreakoutConfirm F → Plan F
  gaps : GapAndHold F → Plan F

module _ {F : Type 0} where
  -- `name` and `regimes`
  abbrev pub name_of : Plan F → String
  name_of (breaks_out s) = "trend_breakout"
  name_of (reverts s) = "mean_reversion"
  name_of (compresses s) = "volatility_compression"
  name_of (shorts s) = "supertrend_short"
  name_of (bounces s) = "rsi_bounce"
  name_of (bounces_on_vix s) = "vix_spike_bounce"
  name_of (is_strong s) = "momentum_strength"
  name_of (is_narrow s) = "nr_pattern"
  name_of (confirms s) = "volume_breakout_confirm"
  name_of (gaps s) = "gap_and_hold"

  abbrev pub regimes_of : Plan F → List Regime
  regimes_of (breaks_out s) = trend ∷ []
  regimes_of (reverts s) = range ∷ []
  regimes_of (compresses s) = volatile ∷ []
  regimes_of (shorts s) = volatile ∷ trend ∷ []
  regimes_of (bounces s) = range ∷ volatile ∷ []
  regimes_of (bounces_on_vix s) = volatile ∷ []
  regimes_of (is_strong s) = trend ∷ []
  regimes_of (is_narrow s) = trend ∷ range ∷ []
  regimes_of (confirms s) = trend ∷ []
  regimes_of (gaps s) = trend ∷ range ∷ []

  -- `scfg.get(name, {}).get("enabled", False)`, and what is built then
  abbrev pub when_enabled : Option (Section F) → (Section F → Plan F) → List (Plan F)
  when_enabled none plan = []
  when_enabled (some cfg) plan = if cfg.enabled then plan cfg ∷ [] else []

module _ {F : Type 0} ⦃f : Float F⦄ where
  abbrev pub bounce_of : F → F → F → F → Section F → Bounce F
  bounce_of oversold stops targets volume cfg = record {
    rsi_period = get_or (cfg.whole "rsi_period") 14;
    rsi_oversold_threshold = get_or (cfg.number "rsi_oversold_threshold") oversold;
    dma_period = get_or (cfg.whole "dma_period") 200;
    atr_period = get_or (cfg.whole "atr_period") 14;
    atr_stop_multiplier = get_or (cfg.number "atr_stop_multiplier") stops;
    target_r_multiple = get_or (cfg.number "target_r_multiple") targets;
    volume_ratio_min = get_or (cfg.number "volume_ratio_min") volume;
  }

  abbrev pub trend_breakout_of : Section F → TrendBreakout F
  trend_breakout_of cfg = record {
    donchian_period = get_or (cfg.whole "donchian_period") 20;
    atr_period = get_or (cfg.whole "atr_period") 14;
    atr_stop_multiplier = get_or (cfg.number "atr_stop_multiplier") (f.ratio 20 10);
    target_r_multiple = get_or (cfg.number "target_r_multiple") (f.ratio 25 10);
    volume_confirm_ratio = f.ratio 10 10;
  }

  abbrev pub mean_reversion_of : Section F → MeanReversion F
  mean_reversion_of cfg = record {
    rsi_period = get_or (cfg.whole "rsi_period") 14;
    rsi_oversold = get_or (cfg.number "rsi_oversold") (f.ratio 30 1);
    rsi_overbought = get_or (cfg.number "rsi_overbought") (f.ratio 70 1);
    bb_period = get_or (cfg.whole "bb_period") 20;
    bb_std = get_or (cfg.number "bb_std") (f.ratio 20 10);
    stock_dma_period = 50;
  }

  abbrev pub supertrend_short_of : Section F → SupertrendShort F
  supertrend_short_of cfg = record {
    atr_period = get_or (cfg.whole "atr_period") 10;
    multiplier = get_or (cfg.number "multiplier") (f.ratio 30 10);
    target_r_multiple = get_or (cfg.number "target_r_multiple") (f.ratio 20 10);
    stock_dma_period = get_or (cfg.whole "stock_dma_period") 50;
    dma_falling_lookback = get_or (cfg.whole "dma_falling_lookback") 10;
    return_lookback = 10;
    return_threshold = get_or (cfg.number "return_threshold") (f.neg (f.ratio 3 100));
    volume_spike_min = get_or (cfg.number "volume_spike_min") (f.ratio 15 10);
    volume_avg_period = 20;
  }

  abbrev pub momentum_strength_of : Section F → MomentumStrength F
  momentum_strength_of cfg = record {
    rsi_period = get_or (cfg.whole "rsi_period") 20;
    rsi_momentum_low = get_or (cfg.number "rsi_momentum_low") (f.ratio 550 10);
    rsi_momentum_high = get_or (cfg.number "rsi_momentum_high") (f.ratio 700 10);
    dma_period = get_or (cfg.whole "dma_period") 50;
    short_dma_period = get_or (cfg.whole "short_dma_period") 20;
    atr_period = get_or (cfg.whole "atr_period") 14;
    atr_stop_multiplier = get_or (cfg.number "atr_stop_multiplier") (f.ratio 15 10);
    target_r_multiple = get_or (cfg.number "target_r_multiple") (f.ratio 25 10);
    volume_confirm_ratio = get_or (cfg.number "volume_confirm_ratio") (f.ratio 12 10);
  }

  abbrev pub nr_pattern_of : Section F → NrPatternBreakout F
  nr_pattern_of cfg = record {
    nr_lookback = get_or (cfg.whole "nr_lookback") 7;
    bullish_close_pct = get_or (cfg.number "bullish_close_pct") (f.ratio 30 100);
    atr_period = get_or (cfg.whole "atr_period") 14;
    target_r_multiple = get_or (cfg.number "target_r_multiple") (f.ratio 20 10);
  }

  abbrev pub volume_breakout_confirm_of : Section F → VolumeBreakoutConfirm F
  volume_breakout_confirm_of cfg = record {
    donchian_period = get_or (cfg.whole "donchian_period") 10;
    volume_avg_period = get_or (cfg.whole "volume_avg_period") 20;
    volume_spike_min = get_or (cfg.number "volume_spike_min") (f.ratio 25 10);
    close_quality_pct = get_or (cfg.number "close_quality_pct") (f.ratio 80 100);
    dma_period = get_or (cfg.whole "dma_period") 50;
    atr_period = get_or (cfg.whole "atr_period") 14;
    atr_stop_multiplier = get_or (cfg.number "atr_stop_multiplier") (f.ratio 15 10);
    target_r_multiple = get_or (cfg.number "target_r_multiple") (f.ratio 20 10);
  }

  abbrev pub gap_and_hold_of : Section F → GapAndHold F
  gap_and_hold_of cfg = record {
    gap_pct_min = get_or (cfg.number "gap_pct_min") (f.ratio 5 1000);
    volume_avg_period = get_or (cfg.whole "volume_avg_period") 20;
    volume_ratio_min = get_or (cfg.number "volume_ratio_min") (f.ratio 15 10);
    atr_period = get_or (cfg.whole "atr_period") 14;
    atr_stop_buffer = get_or (cfg.number "atr_stop_buffer") (f.ratio 5 10);
    target_r_multiple = get_or (cfg.number "target_r_multiple") (f.ratio 20 10);
  }

  unfoldable pub build_strategies : (String → Option (Section F)) → List (Plan F)
  build_strategies scfg =
      when_enabled (scfg "trend_breakout") (λ cfg. breaks_out (trend_breakout_of cfg))
      ++ (when_enabled (scfg "mean_reversion") (λ cfg. reverts (mean_reversion_of cfg))
          ++ (when_enabled (scfg "volatility_compression")
                (λ cfg. compresses (record { nr_lookback = get_or (cfg.whole "nr_lookback") 7 }))
              ++ (when_enabled (scfg "supertrend_short") (λ cfg. shorts (supertrend_short_of cfg))
                  ++ (when_enabled (scfg "rsi_bounce") (λ cfg. bounces (
                        bounce_of (f.ratio 300 10) (f.ratio 15 10) (f.ratio 20 10) (f.ratio 12 10)
                          cfg))
                      ++ (when_enabled (scfg "vix_spike_bounce") (λ cfg. bounces_on_vix (
                            bounce_of (f.ratio 350 10) (f.ratio 20 10) (f.ratio 15 10)
                              (f.ratio 15 10) cfg))
                          ++ (when_enabled (scfg "momentum_strength")
                                (λ cfg. is_strong (momentum_strength_of cfg))
                              ++ (when_enabled (scfg "nr_pattern")
                                    (λ cfg. is_narrow (nr_pattern_of cfg))
                                  ++ (when_enabled (scfg "volume_breakout_confirm")
                                        (λ cfg. confirms (volume_breakout_confirm_of cfg))
                                      ++ when_enabled (scfg "gap_and_hold")
                                          (λ cfg. gaps (gap_and_hold_of cfg))))))))))

  module _ ⦃pd : Pandas F⦄ where
    unfoldable pub evaluate : Plan F → Asked → List (Candle F) → Verdict (Signal F)
    evaluate (breaks_out s) = trend_breakout s
    evaluate (reverts s) = mean_reversion s
    evaluate (compresses s) = volatility_compression s
    evaluate (shorts s) = supertrend_short s
    evaluate (bounces s) = rsi_bounce s
    evaluate (bounces_on_vix s) = vix_spike_bounce s
    evaluate (is_strong s) = momentum_strength s
    evaluate (is_narrow s) = nr_pattern s
    evaluate (confirms s) = volume_breakout_confirm s
    evaluate (gaps s) = gap_and_hold s

    -- A plan as the orchestrator sees it; `now` is `datetime.utcnow()` at the call.
    abbrev pub strategy_of : DateTime → Plan F → Strategy F
    strategy_of now p = record {
      supports = supports (regimes_of p);
      evaluate = λ symbol candles regime.
          result_of (evaluate p (record { symbol = symbol; regime = regime; now = now }) candles);
    }
