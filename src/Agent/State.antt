-- ===== src/Agent/State.antt =====
-- The state of `Orchestrator` in core/execution/orchestrator.py and of `Store` in
-- core/persistence/store.py. Notifications, events and the log are left out.
use pypoc.Prelude.{ℕ, String, Bool, Option, List, true, false, ◌≡◌, ap}
use pypoc.Prelude.Int.{ℤ}
use pypoc.Prelude.Dict.{Dict}
use pypoc.Prelude.Result.{ok, raises, database_error, Attempt}
use pypoc.Types.{DateTime, Regime, Signal}
use pypoc.Risk.Guardrails.{Guardrails, Reason}
use pypoc.Broker.State.{PaperBroker, Snapshot}

-- A row of `daily_state`, under its date.
pub record DailyRow (F : Type 0) : Type 0 where
  pub starting_equity_today : F
  pub peak_equity : F

-- A row of `guardrail_events`.
pub record GuardrailRow (F : Type 0) : Type 0 where
  pub rule : String
  pub symbol : String
  pub detail : Reason F

-- A row of `signals`: the signal, whether it was accepted, and else by which rule it was not.
pub record SignalRow (F : Type 0) : Type 0 where
  pub signal : Signal F
  pub accepted : Bool
  pub rejection_reason : Option (String × Reason F)

-- A row of `equity_snapshots`, under its time.
pub record EquityRow (F : Type 0) : Type 0 where
  pub cash : F
  pub equity : F
  pub realized_pnl : F
  pub open_positions : ℕ

pub record Store (F : Type 0) : Type 0 where
  -- whether the database answers; a call raises if it does not
  pub up : Bool
  pub daily_state : Dict String (DailyRow F)
  -- the single row of `broker_state`, with its date
  pub broker_state : Option (String × Snapshot F)
  pub signals : List (SignalRow F)
  pub guardrail_events : List (GuardrailRow F)
  pub equity_snapshots : Dict String (EquityRow F)

pub record Orchestrator (F : Type 0) : Type 0 where
  -- with `s.risk`, `s.market`, `s.execution` and the mode, which the guardrails share
  pub guardrails : Guardrails F
  pub broker : PaperBroker F
  pub store : Store F
  pub current_regime : Regime
  pub adv_by_symbol : Dict String ℤ
  pub last_tick_age_seconds : F
  pub last_exit_by_symbol : Dict String DateTime
  pub spread_pct_by_symbol : Dict String F
  pub nifty_ltp : F
  pub nifty_change_pct_15m : F
  pub vix : F
  pub vix_change_pct_15m : F
  pub starting_equity_today : F
  pub peak_equity : F
  pub current_trade_date : String
  pub halted : Bool
  pub halt_reason : Reason F
  pub drawdown_warning : Bool
  pub daily_loss_warning : Bool
  pub last_vix_fetch : F
  pub last_config_reload : F

-- A statement that the database runs, if it answers.
unfoldable pub execute : {F : Type 0} → (Store F → Store F) → Store F → Attempt (Store F) (Unit {0})
execute change s = elim s.up [ true ↦ (ok tt, change s) | false ↦ (raises database_error, s) ]

pub execute-up :
    {F : Type 0} (change : Store F → Store F) (s : Store F)
    → s.up ≡ true
    → execute change s ≡ (ok tt, change s)
unfolding execute
execute-up change s h =
    ap (λ b. (elim b [ true ↦ (ok tt, change s) | false ↦ (raises database_error, s) ])) h
