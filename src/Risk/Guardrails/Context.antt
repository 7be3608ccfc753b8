-- ===== src/Risk/Guardrails/Context.antt =====
-- The inputs and the outcome of a rule in core/risk/guardrails.py. The text of a reason is kept as
-- its template and the numbers put into it.
use pypoc.Prelude.{String, Bool, true, false, List, if◌then◌else◌, ◌==◌, string_eq}
use pypoc.Prelude.Int.{ℤ}
use pypoc.Prelude.Dict.{Dict}
use pypoc.Prelude.Result.{Result, ok}
use pypoc.Types.{DateTime, Signal, Position}
use pypoc.Config.{RiskCfg, MarketCfg, ExecutionCfg}

pub data Reason (F : Type 0) : Type 0 where
  text : String → Reason F
  template : String → List F → Reason F

pub record GuardrailDecision (F : Type 0) : Type 0 where
  pub allow : Bool
  pub rule : String
  pub reason : Reason F

pub record MarketContext (F : Type 0) : Type 0 where
  pub now : DateTime
  pub nifty_ltp : F
  pub nifty_change_pct_15m : F
  pub vix : F
  pub vix_change_pct_15m : F
  pub last_tick_age_seconds : F
  pub avg_daily_volumes : Dict String ℤ
  pub spread_pct_by_symbol : Dict String F

pub record PortfolioState (F : Type 0) : Type 0 where
  pub equity : F
  pub starting_equity_today : F
  pub peak_equity : F
  pub open_positions : List (Position F)
  pub realized_pnl_today : F
  pub last_exit_by_symbol : Dict String DateTime
  pub halted : Bool
  pub halt_reason : Reason F

pub record Guardrails (F : Type 0) : Type 0 where
  pub r : RiskCfg F
  pub m : MarketCfg
  pub e : ExecutionCfg F
  pub live_mode : Bool

abbrev pub Rule : Type 0 → Type 0
Rule F =
    Guardrails F → Signal F → ℤ → PortfolioState F → MarketContext F → Result (GuardrailDecision F)

module _ {F : Type 0} where
  abbrev pub allowed : Result (GuardrailDecision F)
  allowed = ok (record { allow = true; rule = ""; reason = text "" })

  abbrev pub rejected : String → Reason F → Result (GuardrailDecision F)
  rejected rule reason = ok (record { allow = false; rule = rule; reason = reason })

  -- `reason or default`
  abbrev pub reason_or : Reason F → String → Reason F
  reason_or (text t) default = text (if t == "" then default else t)
  reason_or (template t xs) default = template t xs
