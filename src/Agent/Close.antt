-- ===== src/Agent/Close.antt =====
-- `_maybe_squareoff_eod` of core/execution/orchestrator.py, up to its report.
use pypoc.Prelude.{List, [], ◌∷◌, ltb, if◌then◌else◌}
use pypoc.Prelude.Result.{Result, ok, raises}
use pypoc.Numbers.{Float, or_else}
use pypoc.Types.{DateTime, Position}
use pypoc.Risk.Clock.{parse_time, time_of_day}
use pypoc.Broker.State.{PaperBroker, Outcome, then_do}
use pypoc.Broker.Prices.{auto_exit, get_positions}
use pypoc.Agent.State.{Orchestrator}

module _ {F : Type 0} ⦃f : Float F⦄ where
  -- The loop over the positions that were open when it began.
  unfoldable pub close_all : List (Position F) → PaperBroker F → Outcome F (Unit {0})
  close_all [] b = (ok tt, b)
  close_all (p ∷ ps) b =
      then_do (auto_exit p (or_else p.last_price p.avg_price) "eod_squareoff" b) (close_all ps)

  unfoldable pub maybe_squareoff_eod :
      DateTime → Orchestrator F → Result (Unit {0}) × Orchestrator F
  maybe_squareoff_eod now a = elim (parse_time a.guardrails.m.intraday_squareoff_at) [
    | raises e ↦ (raises e, a)
    | ok squareoff ↦
        if ltb (time_of_day now) squareoff
        then (ok tt, a)
        else let m = close_all (get_positions a.broker) a.broker in (m.0, record a { broker = m.1 })
  ]
