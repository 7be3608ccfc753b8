-- ===== src/Examples/GateRuns.antt =====
-- The gate before live trading, with formats that write a time as no text but one, for a clock that
-- stands still.
use pypoc.Types.{microseconds_per_day}
use pypoc.Prelude.Result.{ok, raises, value_error}
use pypoc.Config.{BacktestGateCfg}
use pypoc.Prelude.Int.{pos, ℤ, ◌-ℤ◌, ◌≤ℤ◌}
use pypoc.Prelude.{refl, ◌↔◌, true, none, some, ◌*◌, ◌≡◌, Bool, String}
use pypoc.Numbers.{Micro, micro_float}
use pypoc.Backtest.Gate.{
  BacktestMetrics, Formats, evaluate_gate, write_gate_result, is_live_allowed, to_dict, aware,
}
use pypoc.Backtest.Live.{MeetsGate, AreFaithful, evaluate_gate-MeetsGate, is_live_allowed-write}
use pypoc.Examples.Data.{rupees, cents}

abbrev metrics : BacktestMetrics Micro
metrics = record {
  n_trades = pos 120;
  win_rate_pct = rupees 55;
  profit_factor = cents 160;
  avg_win = rupees 900;
  avg_loss = rupees 600;
  total_pnl = rupees 20_000;
  sharpe = cents 130;
  sortino = cents 170;
  max_drawdown_pct = rupees 8;
  cagr_pct = rupees 18;
  expectancy = rupees 166;
  starting_equity = rupees 100_000;
  ending_equity = rupees 120_000;
  period_days = pos 365;
}

abbrev gate_cfg : BacktestGateCfg Micro
gate_cfg = record {
  min_sharpe = rupees 1;
  max_drawdown_pct = rupees 15;
  min_win_rate = rupees 45;
  min_profit_factor = cents 130;
  min_trades = pos 100;
  walk_forward_years = pos 2;
}

abbrev blank : Formats Micro
blank = record {
  iso_format = λ t. "1970-01-01T00:00:00+00:00";
  from_iso = λ t. ok (aware (pos 0));
  dumps = λ j. "{}";
  loads = λ t. raises value_error;
}

-- The document that the gate writes, and formats that know that document only.
abbrev formats : Formats Micro
formats = record blank {
  loads =
      λ t. ok (to_dict (evaluate_gate blank (pos 0) metrics gate_cfg none none (some (rupees 3))));
}

formats-AreFaithful :
    AreFaithful formats
      (evaluate_gate formats (pos 0) metrics gate_cfg none none (some (rupees 3)))
      (pos 0)
unfolding evaluate_gate to_dict
formats-AreFaithful = record { loads-dumps = refl; from_iso-format = refl; format_some = refl }

-- Ten days later.
abbrev ten_days : ℤ
ten_days = pos (10 * microseconds_per_day)

is_live_allowed-write_example :
    let r = evaluate_gate formats (pos 0) metrics gate_cfg none none (some (rupees 3)) in
    (allowed : Bool) × (why : String) × (is_live_allowed formats ten_days
        (some (ok (write_gate_result formats r)))
      ≡ ok (allowed, why))
    × ((allowed ≡ true) ↔ (
        MeetsGate metrics gate_cfg (some (rupees 3))
        × (ten_days -ℤ pos 0 ≤ℤ pos (30 * microseconds_per_day))))
is_live_allowed-write_example =
    is_live_allowed-write formats (pos 0) ten_days metrics gate_cfg none none (some (rupees 3))
      formats-AreFaithful

evaluate_gate-MeetsGate_example :
    ((evaluate_gate formats (pos 0) metrics gate_cfg none none (some (rupees 1))).passed ≡ true)
    ↔ MeetsGate metrics gate_cfg (some (rupees 1))
evaluate_gate-MeetsGate_example =
    evaluate_gate-MeetsGate formats (pos 0) metrics gate_cfg none none (some (rupees 1))
