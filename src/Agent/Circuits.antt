-- ===== src/Agent/Circuits.antt =====
-- The periodic check of the circuits in core/execution/orchestrator.py, against the guardrails.
use pypoc.Prelude.{◌≡◌, ◌⊎◌, ◌↔◌, true, false, arith, Bool-cases, inl, inr}
use pypoc.Prelude.Int.{ℤ}
use pypoc.Numbers.{Float, IsOrdered, zero_f}
use pypoc.Types.{Signal}
use pypoc.Risk.Guardrails.{MarketContext, check_daily_loss_circuit, check_drawdown_circuit}
use pypoc.Risk.Guardrails.Loop.{Allows}
use pypoc.Agent.State.{Orchestrator}
use pypoc.Agent.Signals.{portfolio_of}
use pypoc.Agent.Halts.{day_pnl_pct, dd_pct, check_day, check_drawdown, check_global_halts}

module _ {F : Type 0} ⦃f : Float F⦄ where
  -- Both circuits are whole, or have no baseline.
  abbrev pub IsWithin : Orchestrator F → Type 0
  IsWithin b =
      ((f.lt zero_f b.starting_equity_today ≡ false)
        ⊎ (f.lt (day_pnl_pct b) (f.neg b.guardrails.r.daily_loss_circuit_pct) ≡ false))
      × ((f.lt zero_f b.peak_equity ≡ false)
          ⊎ (f.lt b.guardrails.r.drawdown_circuit_pct (dd_pct b) ≡ false))

module _ {F : Type 0} ⦃f : Float F⦄ (a : Orchestrator F) where
  -- The day's loss is beyond its circuit, and the drawdown beyond its own.
  abbrev pub DayIsHit : Type 0
  DayIsHit =
      (f.lt zero_f a.starting_equity_today ≡ true)
      × (f.lt (day_pnl_pct a) (f.neg a.guardrails.r.daily_loss_circuit_pct) ≡ true)

  abbrev pub DrawdownIsHit : Type 0
  DrawdownIsHit =
      (f.lt zero_f a.peak_equity ≡ true)
      × (f.lt a.guardrails.r.drawdown_circuit_pct (dd_pct a) ≡ true)

  -- After the periodic check the agent is halted exactly if it was halted before or one of the two
  -- circuits is hit.
  pub check_global_halts-halted :
      ((check_global_halts a).halted ≡ true) ↔ ((a.halted ≡ true) ⊎ (DayIsHit ⊎ DrawdownIsHit))
  unfolding check_global_halts check_day check_drawdown
  check_global_halts-halted = ground arith

  -- What the check leaves alone.
  pub check_global_halts-frame :
      let b = check_global_halts a in
      (b.broker ≡ a.broker)
      × (b.guardrails ≡ a.guardrails)
      × (b.starting_equity_today ≡ a.starting_equity_today)
      × (b.peak_equity ≡ a.peak_equity)
  unfolding check_global_halts check_day check_drawdown
  check_global_halts-frame = (ground arith, ground arith, ground arith, ground arith)

  day_within :
      (check_global_halts a).halted ≡ false
      → (f.lt zero_f a.starting_equity_today ≡ false)
        ⊎ (f.lt (day_pnl_pct a) (f.neg a.guardrails.r.daily_loss_circuit_pct) ≡ false)
  unfolding check_global_halts check_day check_drawdown
  day_within runs = ground arith

  drawdown_within :
      (check_global_halts a).halted ≡ false
      → (f.lt zero_f a.peak_equity ≡ false)
        ⊎ (f.lt a.guardrails.r.drawdown_circuit_pct (dd_pct a) ≡ false)
  unfolding check_global_halts check_day check_drawdown
  drawdown_within runs = ground arith

  pub check_global_halts-IsWithin :
      ((check_global_halts a).halted ≡ true) ⊎ IsWithin (check_global_halts a)
  check_global_halts-IsWithin =
      let (broker, guards, start, peak) = check_global_halts-frame in
      elim (Bool-cases (check_global_halts a).halted) [
        | inl halted ↦ inl halted
        | inr runs ↦ inr (rw (broker, guards, start, peak) (day_within runs, drawdown_within runs))
      ]

  module _ (o : IsOrdered F) (s : Signal F) (q : ℤ) (m : MarketContext F) where
    day_rule :
        (f.lt zero_f a.starting_equity_today ≡ false)
          ⊎ (f.lt (day_pnl_pct a) (f.neg a.guardrails.r.daily_loss_circuit_pct) ≡ false)
        → Allows (check_daily_loss_circuit a.guardrails s q (portfolio_of a) m)
    unfolding check_daily_loss_circuit
    day_rule h = ground (arith, o.not_lt_le zero_f a.starting_equity_today)

    drawdown_rule :
        (f.lt zero_f a.peak_equity ≡ false)
          ⊎ (f.lt a.guardrails.r.drawdown_circuit_pct (dd_pct a) ≡ false)
        → Allows (check_drawdown_circuit a.guardrails s q (portfolio_of a) m)
    unfolding check_drawdown_circuit
    drawdown_rule h = ground (arith, o.not_lt_le zero_f a.peak_equity)

    -- If the agent runs on after the periodic check, then with the settings, the baselines and the
    -- equity after it neither circuit rule of the guardrails rejects any order.
    pub check_global_halts-Allows :
        (check_global_halts a).halted ≡ false
        → let b = check_global_halts a in
          Allows (check_daily_loss_circuit b.guardrails s q (portfolio_of b) m)
          × Allows (check_drawdown_circuit b.guardrails s q (portfolio_of b) m)
    unfolding check_daily_loss_circuit check_drawdown_circuit
    check_global_halts-Allows runs =
        let (broker, guards, start, peak) = check_global_halts-frame in
        rw (broker, guards, start, peak)
          (day_rule (day_within runs), drawdown_rule (drawdown_within runs))
