-- ===== src/Examples/CandleRuns.antt =====
-- The agent on a candle close, halted and running, and below the average of 200 days.
use pypoc.Agent.State.{Orchestrator}
use pypoc.Prelude.{◌≡◌, refl, [], ◌∷◌, true, false, none, some, string_eq, ℕ, List, suc, zero}
use pypoc.Prelude.Int.{pos}
use pypoc.Prelude.Result.{ok}
use pypoc.Numbers.{Micro, micro_float}
use pypoc.Types.{Candle}
use pypoc.Agent.Decisions.{
  Strategy, Surroundings, DailyCloses, nifty_market_filter, take_signal, on_candle_close,
}
use pypoc.Agent.Halted.{on_candle_close-idle}
use pypoc.Agent.Filtered.{take_signal-filtered}
use pypoc.Examples.Data.{rupees, cents, signal, broker, ten_oclock}
use pypoc.Examples.ConfigRuns.{regime_cfg}
use pypoc.Examples.AgentRuns.{agent}

abbrev candle : Candle Micro
candle = record {
  symbol = "TCS";
  interval = "5m";
  opening = rupees 100;
  high = rupees 101;
  low = rupees 99;
  close = rupees 100;
  volume = pos 1_000;
  ts = ten_oclock;
}

abbrev candles : ℕ → List (Candle Micro)
candles zero = []
candles (suc n) = candle ∷ candles n

-- A strategy that buys on every close.
abbrev pub eager : Strategy Micro
eager = record { supports = λ r. true; evaluate = λ symbol history r. ok (some signal) }

abbrev daily_closes : ℕ → DailyCloses Micro
daily_closes average = record {
  days = 200;
  last_close = rupees 24_000;
  dma50 = rupees 23_500;
  dma50_before = rupees 23_400;
  dma200 = some (rupees average);
}

abbrev pub surroundings : ℕ → Surroundings Micro
surroundings average = record {
  now = ten_oclock;
  regime_cfg = regime_cfg;
  reading = some (200, rupees 30, cents 5);
  closes = some (daily_closes average);
  pcr = some (rupees 1);
  sentiment = none;
  blackout = false;
  history = candles 30;
  ids = λ n. "a1";
}

abbrev halted_agent : Orchestrator Micro
halted_agent = record (agent (broker [] [])) { halted = true }

on_candle_close-idle_example :
    ((on_candle_close (surroundings 22_000) (eager ∷ []) candle halted_agent).1.broker
      ≡ broker [] [])
    × ((on_candle_close (surroundings 22_000) (eager ∷ []) candle halted_agent).1.halted ≡ true)
on_candle_close-idle_example =
    on_candle_close-idle (surroundings 22_000) (eager ∷ []) candle halted_agent refl

take_signal-filtered_example :
    take_signal
      (surroundings 25_000)
      (nifty_market_filter (some (daily_closes 25_000)) (some (rupees 1)) (rupees 14) none)
      0
      signal
      (agent (broker [] []))
    ≡ (ok tt, agent (broker [] []))
take_signal-filtered_example =
    take_signal-filtered (surroundings 25_000) (daily_closes 25_000) (rupees 25_000) (rupees 14) 0
      signal (agent (broker [] [])) refl refl refl refl
