-- ===== src/Risk/Sizing.antt =====
-- core/risk/sizing.py: the quantity of an order, by the risk budget and the position cap.
use pypoc.Prelude.{if◌then◌else◌}
use pypoc.Prelude.Int.{ℤ, pos, min_ℤ, max_ℤ}
use pypoc.Prelude.Result.{Result, ok, raises, zero_division_error}
use pypoc.Numbers.{Float, zero_f, percent}
use pypoc.Types.{Signal, risk_per_share}

module _ {F : Type 0} ⦃f : Float F⦄ where
  unfoldable pub position_size : F → F → Signal F → F → Result ℤ
  position_size equity per_trade_risk_pct signal max_position_pct =
      let risk = risk_per_share signal in
      let qty_by_risk = f.trunc (f.floor_div (f.mul equity (percent per_trade_risk_pct)) risk) in
      let cap_by_size =
        f.trunc (f.floor_div (f.mul equity (percent max_position_pct)) signal.entry_price) in
      if f.le risk zero_f
      then ok (pos 0)
      else if f.is_zero signal.entry_price
      then raises zero_division_error
      else ok (max_ℤ (pos 0) (min_ℤ qty_by_risk cap_by_size))
