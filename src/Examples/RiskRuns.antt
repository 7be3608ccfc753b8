-- ===== src/Examples/RiskRuns.antt =====
-- The guardrails on one signal.
use pypoc.Prelude.{◌≡◌, refl, ◌↔◌, false, arith}
use pypoc.Prelude.Int.{floor_ℤ, ◌*ℤ◌, ◌-ℤ◌, pos}
use pypoc.Prelude.Result.{ok}
use pypoc.Types.{risk_per_share}
use pypoc.Numbers.{floor_quotient, trunc_millionths, Micro, micro_float, Micro-IsExact, units-Micro}
use pypoc.Risk.Sizing.{position_size}
use pypoc.Risk.Guardrails.{
  GuardrailDecision, text, rules, check, check_global_halt, check_qty_positive,
  check_per_trade_risk, check_max_position_size,
}
use pypoc.Risk.Guardrails.Loop.{Allows, Rejects, check-first}
use pypoc.Risk.Guardrails.SafeOrder.{IsSafe}
use pypoc.Risk.Guardrails.Safe.{check-IsSafe}
use pypoc.Risk.Guardrails.Sized.{position_size-Allows}
use pypoc.Examples.Data.{guardrails, signal, portfolio, context, risk_cfg}

check-IsSafe_example :
    Allows (check guardrails signal (pos 10) portfolio context)
    ↔ IsSafe guardrails signal (pos 10) portfolio context
check-IsSafe_example = check-IsSafe guardrails signal (pos 10) portfolio context

-- No shares: the second rule rejects.
abbrev no_shares : GuardrailDecision Micro
no_shares = record { allow = false; rule = "qty_positive"; reason = text "computed qty <= 0" }

check_none : check guardrails signal (pos 0) portfolio context ≡ ok no_shares
unfolding check check_global_halt check_qty_positive
check_none = refl

check-first_example : Rejects guardrails signal (pos 0) portfolio context rules no_shares
check-first_example =
    check-first guardrails signal (pos 0) portfolio context no_shares check_none refl

sized :
    position_size portfolio.equity risk_cfg.per_trade_risk_pct signal risk_cfg.max_position_pct
    ≡ ok (pos 200)
unfolding position_size risk_per_share floor_quotient floor_ℤ ◌*ℤ◌ ◌-ℤ◌ trunc_millionths
sized = refl

position_size-Allows_example :
    Allows (check_per_trade_risk guardrails signal (pos 200) portfolio context)
    × Allows (check_max_position_size guardrails signal (pos 200) portfolio context)
unfolding floor_ℤ ◌*ℤ◌ floor_quotient
position_size-Allows_example =
    position_size-Allows Micro-IsExact guardrails signal portfolio context (pos 200)
      (rw units-Micro (omega arith)) (rw units-Micro (omega arith)) (rw units-Micro (omega arith))
      sized
