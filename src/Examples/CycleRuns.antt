-- ===== src/Examples/CycleRuns.antt =====
-- Cycles of the agent: in the morning, at the square-off with a short position, and after a halt.
use pypoc.Prelude.{◌≡◌, refl, inl, inr, true, none, some, List, [], ◌∷◌, ◌++◌, ℕ, arith, string_eq}
use pypoc.Prelude.Int.{pos}
use pypoc.Prelude.Result.{raises, value_error, key_error, and_then-raises}
use pypoc.Numbers.{Micro, micro_float, zero_f}
use pypoc.Broker.Invariant.{IsValid}
use pypoc.Broker.State.{PaperBroker, new_broker}
use pypoc.Broker.Reach.{booked}
use pypoc.Market.Candles.{empty_aggregator}
use pypoc.Queue.{QueueFile, entry, read_pending}
use pypoc.Agent.Commands.{process_command_queue, process_commands}
use pypoc.Agent.Days.{wired}
use pypoc.Agent.Lifecycle.{Facts, Pulse, Session, tick_lifecycle, run_cycles, commanded}
use pypoc.Agent.Ticks.{System, Event, cycled, ticked, run_events}
use pypoc.Agent.Cycles.{run_cycles-stops}
use pypoc.Agent.Cycled.{tick_lifecycle-IsWatched, tick_lifecycle-IsDead, IsWatched, IsDead}
use pypoc.Agent.Histories.{run_events-IsValid}
use pypoc.Examples.Data.{rupees, ten_oclock, position, execution_cfg}
use pypoc.Examples.AgentRuns.{
  agent, one_long, one_short, one_long-IsValid, one_short-IsValid, squareoff_time, half_past_three,
}
use pypoc.Examples.QueueRuns.{desk, signer, halt}
use pypoc.Examples.CandleRuns.{surroundings, eager}
use pypoc.Examples.MarketRuns.{tick_at}

abbrev facts : Facts
facts = record {
  ts = "2026-03-02T04:30:00";
  pid = pos 7;
  mode = "paper";
  feed_connected = true;
  regime_rationale = "adx";
  universe_size = 50;
  strategies_enabled = "trend_follow" ∷ [];
}

-- A cycle at a time of day. The VIX and the settings are asked for.
abbrev pulse : ℕ → Pulse Micro
pulse now = record {
  desk = desk;
  signer = signer;
  tick_age = rupees 2;
  trade_date = "2026-03-02";
  vix_asked = rupees 1_000;
  vix_fetched = rupees 1_001;
  fresh_vix = some (rupees 15);
  config_asked = rupees 1_001;
  config_read = rupees 1_002;
  settings = raises value_error;
  utc = "2026-03-02T04:30:00";
  now = now;
  facts = facts;
  writes = true;
}

abbrev session : PaperBroker Micro → QueueFile Micro → Session Micro
session b queue = record { agent = agent b; queue = queue; snapshot = none }

tick_lifecycle-IsWatched_example :
    IsWatched
      (pulse ten_oclock)
      (tick_lifecycle (pulse ten_oclock) (session one_long (some (entry halt ∷ []))))
tick_lifecycle-IsWatched_example =
    tick_lifecycle-IsWatched (pulse ten_oclock) 54_900_000_000
      (session one_long (some (entry halt ∷ []))) refl squareoff_time one_long-IsValid (inl refl)

still_short :
    (commanded (pulse half_past_three) (session one_short none)).agent.broker.short_positions
    ≡ ("TCS", position "TCS" 10 100 102 none) ∷ []
unfolding process_command_queue process_commands read_pending
still_short = refl

tick_lifecycle-IsDead_example :
    IsDead
      (pulse half_past_three)
      (commanded (pulse half_past_three) (session one_short none))
      (tick_lifecycle (pulse half_past_three) (session one_short none))
tick_lifecycle-IsDead_example =
    tick_lifecycle-IsDead (pulse half_past_three) 54_900_000_000
      ("TCS", position "TCS" 10 100 102 none) [] (session one_short none) refl squareoff_time
      (omega arith) one_short-IsValid still_short

-- The loop that meets the short position.
dies : (run_cycles (pulse half_past_three ∷ []) (session one_short none)).0 ≡ raises key_error
unfolding run_cycles
dies = and_then-raises _ _ key_error tick_lifecycle-IsDead_example.0

run_cycles-stops_example :
    run_cycles ((pulse half_past_three ∷ []) ++ (pulse ten_oclock ∷ [])) (session one_short none)
    ≡ run_cycles (pulse half_past_three ∷ []) (session one_short none)
run_cycles-stops_example =
    run_cycles-stops (pulse half_past_three ∷ []) (pulse ten_oclock ∷ []) (session one_short none)
      (inr (key_error, dies))

abbrev system : System Micro
system = record {
  session = session (wired (new_broker (rupees 100_000) execution_cfg ten_oclock)) none;
  aggregator = record (empty_aggregator ("5m" ∷ [])) { listeners = 1 };
}

abbrev events : List (Event Micro)
events = ticked (surroundings 100) (tick_at 1 100) ∷ cycled (pulse ten_oclock) ∷ []

run_events-IsValid_example :
    let b = (run_events (eager ∷ []) system events).session.agent.broker in
    IsValid b × (b.realized_pnl ≡ booked zero_f b.trade_log)
run_events-IsValid_example =
    run_events-IsValid (eager ∷ []) (rupees 100_000) execution_cfg ten_oclock events system refl
