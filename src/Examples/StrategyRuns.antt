-- ===== src/Examples/StrategyRuns.antt =====
-- The strategies on thirty bars of which the last breaks out, and the bands of the supertrend.
use pypoc.Strategies.Indicators.{donchian, atr, true_range, volume_ratio}
use pypoc.Strategies.Frame.{iloc}
use mathlib.Core.Option.{some-injective}
use pypoc.Prelude.{
  subst, arith, ◌≡◌, refl, String, List, [], ◌∷◌, Option, none, some, All, ℕ, suc, zero, true, ◌+◌,
  ◌-◌,
}
use pypoc.Prelude.Int.{pos, ◌+ℤ◌, ◌*ℤ◌}
use pypoc.Numbers.{micro_float, Micro, Micro-IsExact, Micro-IsOrdered, floor_quotient}
use pypoc.Types.{Candle, trend, Signal}
use pypoc.Strategies.Entry.{Asked}
use pypoc.Strategies.Verdict.{Verdict, value, ◌>>=◌, skip_if}
use pypoc.Strategies.Build.{Section, build_strategies}
use pypoc.Strategies.Built.{IsSensible, GivesSound, build_strategies-IsSound}
use pypoc.Strategies.Breakouts.{trend_breakout, TrendBreakout}
use pypoc.Strategies.Bands.{Bar, Trail, trails, tighten}
use pypoc.Strategies.Ratchet.{trails-IsTighter, IsTighter, StaysInside}
use pypoc.Examples.Series.{micro_pandas}
use pypoc.Examples.Data.{rupees, ten_oclock}

abbrev asked : Asked
asked = record { symbol = "TCS"; regime = trend; now = ten_oclock }

abbrev bar_at : ℕ → ℕ → Candle Micro
bar_at price volume = record {
  symbol = "TCS";
  interval = "5m";
  opening = rupees price;
  high = rupees (price + 1);
  low = rupees (price - 1);
  close = rupees price;
  volume = pos volume;
  ts = ten_oclock;
}

abbrev flat_bars : ℕ → List (Candle Micro)
flat_bars zero = bar_at 110 5_000 ∷ []
flat_bars (suc n) = bar_at 100 1_000 ∷ flat_bars n

-- A section that enables its strategy and sets nothing.
abbrev plain : Section Micro
plain = record { enabled = true; whole = λ k. none; number = λ k. none }

abbrev settings : String → Option (Section Micro)
settings name = some plain

abbrev entry_of : Verdict (Signal Micro) → Micro
entry_of (value s) = s.entry_price
entry_of _ = pos 0

abbrev breakout : TrendBreakout Micro
breakout = record {
  donchian_period = 20;
  atr_period = 14;
  atr_stop_multiplier = rupees 2;
  target_r_multiple = rupees 2;
  volume_confirm_ratio = rupees 1;
}

-- The last bar breaks out, and the strategy buys at its close.
breaks_out_now : entry_of (trend_breakout breakout asked (flat_bars 29)) ≡ rupees 110
unfolding trend_breakout ◌>>=◌ skip_if iloc donchian atr true_range floor_quotient ◌+ℤ◌ ◌*ℤ◌
    volume_ratio
breaks_out_now = refl

no_multiples : IsSensible plain
no_multiples = record {
  stops = λ x e. absurd (ground arith);
  targets = λ x e. absurd (ground arith);
}

plain-IsSensible : (name : String) (cfg : Section Micro) → settings name ≡ some cfg → IsSensible cfg
plain-IsSensible name cfg e = subst IsSensible (some-injective plain cfg e) no_multiples

build_strategies-IsSound_example :
    All (GivesSound Micro-IsExact asked (flat_bars 29)) (build_strategies settings)
build_strategies-IsSound_example =
    build_strategies-IsSound Micro-IsExact asked (flat_bars 29) settings plain-IsSensible

abbrev trail : Trail Micro
trail = record {
  final_upper = rupees 110;
  final_lower = rupees 90;
  direction = pos 1;
  close = rupees 100;
}

abbrev narrower : ℕ → Bar Micro
narrower k = record {
  upper_band = rupees (108 - k);
  lower_band = rupees (92 + k);
  atr = rupees 4;
  close = rupees 101;
}

inside_first : StaysInside trail (narrower 0)
inside_first = record {
  has_atr = refl;
  has_upper = refl;
  has_lower = refl;
  below = refl;
  above = refl;
  was_below = refl;
  was_above = refl;
}

inside_second : StaysInside (tighten trail (narrower 0)) (narrower 2)
unfolding tighten
inside_second = record {
  has_atr = refl;
  has_upper = refl;
  has_lower = refl;
  below = refl;
  above = refl;
  was_below = refl;
  was_above = refl;
}

trails-IsTighter_example : All (IsTighter trail) (trails trail (narrower 0 ∷ narrower 2 ∷ []))
trails-IsTighter_example =
    trails-IsTighter Micro-IsOrdered trail (narrower 0 ∷ narrower 2 ∷ [])
      (record { upper = refl; lower = refl }) (inside_first, (inside_second, tt))
