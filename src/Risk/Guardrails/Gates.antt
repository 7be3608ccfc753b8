-- ===== src/Risk/Guardrails/Gates.antt =====
-- The rules of core/risk/guardrails.py that read switches, integers, times and symbols.
use pypoc.Prelude.{◌&&◌, not, none, some, List, [], ◌∷◌, ltb, leb, if◌then◌else◌, ◌==◌, string_eq}
use pypoc.Prelude.Int.{pos, ◌-ℤ◌, ◌*ℤ◌, ltb_ℤ, leb_ℤ}
use pypoc.Prelude.Dict.{lookup}
use pypoc.Prelude.Result.{Result, ◌>>=◌}
use pypoc.Types.{microseconds_per_minute, Signal, Position, is_buy}
use pypoc.Risk.Clock.{parse_time, time_of_day}
use pypoc.Risk.Guardrails.Context.{text, GuardrailDecision, Rule, allowed, rejected, reason_or}

module _ {F : Type 0} where
  unfoldable pub check_global_halt : Rule F
  check_global_halt g s q p m =
      if p.halted then rejected "global_halt" (reason_or p.halt_reason "halted") else allowed

  unfoldable pub check_qty_positive : Rule F
  check_qty_positive g s q p m =
      if leb_ℤ q (pos 0) then rejected "qty_positive" (text "computed qty <= 0") else allowed

  unfoldable pub check_market_window : Rule F
  check_market_window g s q p m = do
    let now_t = time_of_day m.now
    start ← parse_time g.m.trading_start
    cutoff ← parse_time g.m.no_new_entries_after
    if ltb now_t start
        then rejected "market_window" (text "before market open")
        else if leb cutoff now_t
        then rejected "market_window" (text "past no-new-entries cutoff")
        else allowed

  unfoldable pub check_signal_cooldown : Rule F
  check_signal_cooldown g s q p m = elim (lookup s.symbol p.last_exit_by_symbol) [
    | none ↦ allowed
    | some last ↦
        if ltb_ℤ (pos m.now -ℤ pos last)
          (pos microseconds_per_minute *ℤ g.e.signal_cooldown_minutes)
        then rejected "signal_cooldown" (text "re-entry within cooldown")
        else allowed
  ]

  -- The loop over the open positions returns from inside only with an allowance.
  unfoldable pub stacked : Signal F → List (Position F) → Result (GuardrailDecision F)
  stacked s [] = allowed
  stacked s (pos' ∷ rest) =
      if pos'.symbol == s.symbol && (not (is_buy s.side) && ltb_ℤ (pos 0) pos'.qty)
      then allowed
      else stacked s rest

  unfoldable pub check_duplicate_position : Rule F
  unfolding stacked
  check_duplicate_position g s q p m = stacked s p.open_positions
