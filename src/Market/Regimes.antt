-- ===== src/Market/Regimes.antt =====
-- core/regime/classifier.py. The two indicators, `_adx` and `_bb_width`, are computed by pandas and
-- are arguments; so is the number of days.
use pypoc.Prelude.{ℕ, String, Bool, if◌then◌else◌}
use pypoc.Prelude.Int.{pos, ◌*ℤ◌, ltb_ℤ, max_ℤ}
use pypoc.Numbers.{Float, zero_f}
use pypoc.Types.{Regime, trend, range, volatile, unknown}
use pypoc.Config.{RegimeCfg}

pub record RegimeSnapshot (F : Type 0) : Type 0 where
  pub regime : Regime
  pub adx : F
  pub bb_width : F
  pub vix : F
  pub rationale : String

module _ {F : Type 0} ⦃f : Float F⦄ where
  -- `len(nifty_ohlc) < max(self.cfg.adx_period * 2, 25)`
  abbrev pub lacks_history : RegimeCfg F → ℕ → Bool
  lacks_history cfg days = ltb_ℤ (pos days) (max_ℤ (cfg.adx_period *ℤ pos 2) (pos 25))

  abbrev pub snapshot_of : Regime → F → F → F → String → RegimeSnapshot F
  snapshot_of regime adx bb_width vix rationale = record {
    regime = regime;
    adx = adx;
    bb_width = bb_width;
    vix = vix;
    rationale = rationale;
  }

  -- `classify`; a rationale keeps its text without the numbers put into it.
  unfoldable pub classify : RegimeCfg F → ℕ → F → F → F → RegimeSnapshot F
  classify cfg days adx bb_width vix =
      if lacks_history cfg days
      then snapshot_of unknown zero_f zero_f vix "insufficient history"
      else if f.lt cfg.vix_volatile_threshold vix
      then snapshot_of volatile adx bb_width vix "VIX above threshold"
      else if f.lt cfg.adx_trend_threshold adx
      then snapshot_of trend adx bb_width vix "ADX above threshold"
      else if f.lt bb_width cfg.bb_width_range_threshold
      then snapshot_of range adx bb_width vix "BB width below threshold"
      else snapshot_of unknown adx bb_width vix "no clear regime"
