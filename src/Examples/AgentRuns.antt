-- ===== src/Examples/AgentRuns.antt =====
-- The agent on one signal, through a bad day, a restart and the square-off.
use pypoc.Broker.Positions.{equity}
use pypoc.Broker.Orders.{place_order}
use pypoc.Prelude.Result.{ok}
use pypoc.Risk.Guardrails.Loop.{Allows}
use pypoc.Risk.Guardrails.SafeOrder.{IsSafe}
use pypoc.Types.{trend, market_value}
use pypoc.Agent.Close.{maybe_squareoff_eod}
use pypoc.Risk.Clock.{parse_time}
use pypoc.Agent.Days.{persist_broker_state, persist_daily_state, restart}
use pypoc.Broker.Invariant.{IsValid}
use pypoc.Agent.Halts.{check_global_halts, check_drawdown, check_day}
use pypoc.Prelude.Int.{ℤ, pos, ◌*ℤ◌, floor_ℤ, ◌+ℤ◌}
use pypoc.Broker.State.{PaperBroker}
use pypoc.Prelude.{◌≡◌, refl, ◌⊎◌, ◌↔◌, inr, [], ◌∷◌, true, false, none, string_eq, ℕ, inl, arith}
use pypoc.Numbers.{Micro, micro_float, Micro-IsOrdered, floor_quotient}
use pypoc.Risk.Guardrails.{text, check_daily_loss_circuit, check_drawdown_circuit}
use pypoc.Agent.State.{Orchestrator, Store}
use pypoc.Agent.Signals.{handle_signal, portfolio_of, market_ctx, request_of}
use pypoc.Agent.Guarded.{handle_signal-IsSafe, IsSized}
use pypoc.Agent.Circuits.{
  DayIsHit, DrawdownIsHit, check_global_halts-halted, check_global_halts-Allows,
}
use pypoc.Agent.Restart.{restart-recovers, successor}
use pypoc.Agent.Squared.{maybe_squareoff_eod-closes, closing}
use pypoc.Examples.Data.{rupees, cents, guardrails, signal, position, broker, ten_oclock, context}

abbrev database : Store Micro
database = record {
  up = true;
  daily_state = [];
  broker_state = none;
  signals = [];
  guardrail_events = [];
  equity_snapshots = [];
}

-- An agent that started the day with a lakh and has seen ten percent more.
abbrev pub agent : PaperBroker Micro → Orchestrator Micro
agent b = record {
  guardrails = guardrails;
  broker = b;
  store = database;
  current_regime = trend;
  adv_by_symbol = ("TCS", pos 100_000) ∷ [];
  last_tick_age_seconds = rupees 1;
  last_exit_by_symbol = [];
  spread_pct_by_symbol = ("TCS", cents 5) ∷ [];
  nifty_ltp = rupees 24_000;
  nifty_change_pct_15m = cents 10;
  vix = rupees 14;
  vix_change_pct_15m = cents 20;
  starting_equity_today = rupees 100_000;
  peak_equity = rupees 112_000;
  current_trade_date = "2026-03-02";
  halted = false;
  halt_reason = text "";
  drawdown_warning = false;
  daily_loss_warning = false;
  last_vix_fetch = rupees 0;
  last_config_reload = rupees 0;
}

abbrev pub one_long : PaperBroker Micro
one_long = broker (("TCS", position "TCS" 10 100 98 none) ∷ []) []

abbrev pub one_short : PaperBroker Micro
one_short = broker [] (("TCS", position "TCS" 10 100 102 none) ∷ [])

handle_signal-IsSafe_example :
    ((handle_signal "a1" ten_oclock signal (agent one_long)).1.broker ≡ one_long)
    ⊎ ((qty : ℤ) × IsSized "a1" ten_oclock signal (agent one_long) qty
        × IsSafe guardrails signal qty
            (portfolio_of (agent one_long))
            (market_ctx ten_oclock (agent one_long))
        × ((handle_signal "a1" ten_oclock signal (agent one_long)).1.broker
            ≡ (place_order (request_of "a1" signal qty) one_long).1))
handle_signal-IsSafe_example = handle_signal-IsSafe "a1" ten_oclock signal (agent one_long)

check_global_halts-halted_example :
    ((check_global_halts (agent one_long)).halted ≡ true)
    ↔ ((false ≡ true) ⊎ (DayIsHit (agent one_long) ⊎ DrawdownIsHit (agent one_long)))
check_global_halts-halted_example = check_global_halts-halted (agent one_long)

-- The equity is 101,000 of 112,000: within the circuit of ten percent.
runs_on : (check_global_halts (agent one_long)).halted ≡ false
unfolding check_global_halts ◌*ℤ◌ check_drawdown check_day floor_ℤ floor_quotient equity ◌+ℤ◌
    market_value
runs_on = refl

check_global_halts-Allows_example :
    let b = check_global_halts (agent one_long) in
    Allows (check_daily_loss_circuit b.guardrails signal (pos 10) (portfolio_of b) context)
    × Allows (check_drawdown_circuit b.guardrails signal (pos 10) (portfolio_of b) context)
check_global_halts-Allows_example =
    check_global_halts-Allows (agent one_long) Micro-IsOrdered signal (pos 10) context runs_on

pub one_long-IsValid : IsValid one_long
one_long-IsValid = record {
  sides = record {
    long_keys = (refl, tt);
    short_keys = tt;
    long_held = ((refl, omega arith), tt);
    short_held = tt;
    apart = λ k. inr refl;
  };
}

abbrev pub flat_broker : PaperBroker Micro
flat_broker = broker [] []

restart-recovers_example :
    let a = agent one_long in
    let saved = persist_broker_state "2026-03-02" (persist_daily_state "2026-03-02" a) in
    let b = restart (rupees 1_000_000_000) "2026-03-02" (successor saved (agent flat_broker)) in
    (b.starting_equity_today ≡ rupees 100_000)
    × (micro_float.le (rupees 112_000) b.peak_equity ≡ true)
    × (b.broker ≡ record flat_broker {
      cash = one_long.cash;
      realized_pnl = one_long.realized_pnl;
      positions = one_long.positions;
      short_positions = one_long.short_positions;
      on_exit = true;
      on_state_change = true;
    })
restart-recovers_example =
    restart-recovers Micro-IsOrdered (rupees 1_000_000_000) "2026-03-02" (agent one_long)
      (agent flat_broker) refl one_long-IsValid

abbrev pub half_past_three : ℕ
half_past_three = 55_800_000_000

pub squareoff_time : parse_time guardrails.m.intraday_squareoff_at ≡ ok 54_900_000_000
unfolding parse_time
squareoff_time = refl

pub one_short-IsValid : IsValid one_short
one_short-IsValid = record {
  sides = record {
    long_keys = tt;
    short_keys = (refl, tt);
    long_held = tt;
    short_held = ((refl, omega arith), tt);
    apart = λ k. inl refl;
  };
}

maybe_squareoff_eod-closes_example :
    let (r, b) = maybe_squareoff_eod half_past_three (agent one_short) in
    (r ≡ closing one_short.short_positions)
    × (b.broker.positions ≡ [])
    × (b.broker.short_positions ≡ one_short.short_positions)
maybe_squareoff_eod-closes_example =
    maybe_squareoff_eod-closes half_past_three 54_900_000_000 (agent one_short) squareoff_time
      (omega arith) one_short-IsValid
