-- ===== src/Strategies/Entry.antt =====
-- What the `evaluate` methods of core/strategies share: `supports` of base.py and the signal that
-- they build.
use pypoc.Prelude.{any, Bool, List, String, ℕ, if◌then◌else◌, ltb}
use pypoc.Types.{DateTime, Regime, regime_beq, Side, Signal}

abbrev pub supports : List Regime → Regime → Bool
supports regimes regime = any (regime_beq regime) regimes

abbrev pub max_ℕ : ℕ → ℕ → ℕ
max_ℕ a b = if ltb a b then b else a

-- Where and when a strategy is asked.
pub record Asked : Type 0 where
  pub symbol : String
  pub regime : Regime
  pub now : DateTime

-- The signal of a strategy: its name and side, the price of entry, stop and target.
abbrev pub signal_of : {F : Type 0} → String → Side → Asked → F → F → F → F → String → Signal F
signal_of name side asked entry stop target confidence rationale = record {
  symbol = asked.symbol;
  side = side;
  strategy = name;
  regime = asked.regime;
  entry_price = entry;
  stop_loss = stop;
  target = target;
  confidence = confidence;
  rationale = rationale;
  ts = asked.now;
}
