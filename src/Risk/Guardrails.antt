-- ===== src/Risk/Guardrails.antt =====
-- core/risk/guardrails.py: the rules that every order passes, and the loop over them.
mod Context
mod Gates
mod Limits
mod Circuits
pub mod Loop
pub mod SafeOrder
pub mod Safe
pub mod Sized
pub use Context.*
unfoldable pub use Gates.*
unfoldable pub use Limits.*
unfoldable pub use Circuits.*
use pypoc.Prelude.{
  ◌*◌, ◌≡◌, String, Bool, true, false, ◌&&◌, not, Option, none, some, List, [], ◌∷◌, any, length,
  nat_beq, ltb, leb, if◌then◌else◌, ◌==◌, string_eq,
}
use pypoc.Prelude.Int.{ℤ, pos, negsuc, ◌-ℤ◌, ◌*ℤ◌, ltb_ℤ, leb_ℤ}
use pypoc.Prelude.Dict.{Dict, lookup}
use pypoc.Prelude.Result.{Result, ok, ◌>>=◌}
use pypoc.Numbers.{Float, zero_f, abs_f, percent}
use pypoc.Types.{microseconds_per_minute, DateTime, Side, Signal, Position, is_buy, risk_per_share}
use pypoc.Config.{RiskCfg, MarketCfg, ExecutionCfg}
use pypoc.Risk.Clock.{parse_time, time_of_day}

module _ {F : Type 0} ⦃f : Float F⦄ where
  -- The rules in the order in which `check` tries them.
  abbrev pub rules : List (Rule F)
  rules =
      check_global_halt ∷ check_qty_positive ∷ check_stop_loss_required ∷ check_market_window
      ∷ check_stale_data ∷ check_black_swan ∷ check_max_open_positions ∷ check_per_trade_risk
      ∷ check_max_position_size ∷ check_liquidity ∷ check_spread ∷ check_daily_loss_circuit
      ∷ check_drawdown_circuit ∷ check_signal_cooldown ∷ check_duplicate_position ∷ []

  -- The loop of `check`: the first decision that does not allow is the result.
  unfoldable pub check_rules : List (Rule F) → Rule F
  check_rules [] g s q p m = allowed
  check_rules (rule ∷ rest) g s q p m = do
    decision ← rule g s q p m
    if decision.allow then check_rules rest g s q p m else ok decision

  unfoldable pub check : Rule F
  unfolding check_rules
  check = check_rules rules
