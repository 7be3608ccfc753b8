-- ===== src/Risk/Guardrails/Limits.antt =====
-- The rules of core/risk/guardrails.py that bound an order: its stop, its risk, its size, and the
-- liquidity and the spread of its symbol.
use pypoc.Prelude.{◌&&◌, not, none, some, [], ◌∷◌, any, length, if◌then◌else◌, ◌==◌, string_eq}
use pypoc.Prelude.Int.{pos, ltb_ℤ, leb_ℤ}
use pypoc.Prelude.Dict.{lookup}
use pypoc.Prelude.Result.{Result}
use pypoc.Numbers.{Float, zero_f, percent}
use pypoc.Types.{is_buy, risk_per_share}
use pypoc.Risk.Guardrails.Context.{
  text, template, GuardrailDecision, Guardrails, Rule, allowed, rejected,
}

module _ {F : Type 0} ⦃f : Float F⦄ where
  unfoldable pub check_stop_loss_required : Rule F
  check_stop_loss_required g s q p m =
      if f.le s.stop_loss zero_f
      then rejected "stop_loss_required" (text "no stop loss")
      else if is_buy s.side && f.le s.entry_price s.stop_loss
      then rejected "stop_loss_required" (text "stop above entry on long")
      else if not (is_buy s.side) && f.le s.stop_loss s.entry_price
      then rejected "stop_loss_required" (text "stop below entry on short")
      else allowed

  unfoldable pub check_max_open_positions : Rule F
  check_max_open_positions g s q p m =
      let open_count = pos (length p.open_positions) in
      if any (λ o. o.symbol == s.symbol) p.open_positions
      then allowed
      else if f.le g.r.max_open_positions (f.of_int open_count)
      then rejected "max_open_positions" (template "already {} open" (f.of_int open_count ∷ []))
      else allowed

  -- The factor 1.001 of the two limits on an order's size.
  abbrev pub fudged : F → F
  fudged x = f.mul x (f.ratio 1001 1000)

  unfoldable pub check_per_trade_risk : Rule F
  check_per_trade_risk g s q p m =
      let risk_budget = f.mul p.equity (percent g.r.per_trade_risk_pct) in
      let risk_amount = f.mul (f.of_int q) (risk_per_share s) in
      if f.lt (fudged risk_budget) risk_amount
      then rejected "per_trade_risk"
          (template "risk {} > budget {}" (risk_amount ∷ risk_budget ∷ []))
      else allowed

  unfoldable pub check_max_position_size : Rule F
  check_max_position_size g s q p m =
      let position_value = f.mul (f.of_int q) s.entry_price in
      let max_value = f.mul p.equity (percent g.r.max_position_pct) in
      if f.lt (fudged max_value) position_value
      then rejected "max_position_size"
          (template "position {} > cap {}" (position_value ∷ max_value ∷ []))
      else allowed

  adv_missing : Guardrails F → Result (GuardrailDecision F)
  adv_missing g =
      if g.live_mode
      then rejected "liquidity" (text "no ADV data for {} (live mode requires it)")
      else allowed

  unfoldable pub check_liquidity : Rule F
  unfolding adv_missing
  check_liquidity g s q p m = elim (lookup s.symbol m.avg_daily_volumes) [
    | none ↦ adv_missing g
    | some adv ↦
        let max_qty = f.trunc (f.mul (f.of_int adv) (percent g.r.liquidity_max_pct_of_adv)) in
        if leb_ℤ adv (pos 0) && leb_ℤ (pos 0) adv
        then adv_missing g
        else if ltb_ℤ max_qty q
        then rejected "liquidity" (
            template "qty {} > {}% ADV ({})"
              (f.of_int q ∷ g.r.liquidity_max_pct_of_adv ∷ f.of_int max_qty ∷ []))
        else allowed
  ]

  unfoldable pub check_spread : Rule F
  check_spread g s q p m = elim (lookup s.symbol m.spread_pct_by_symbol) [
    | none ↦
        if g.live_mode
        then rejected "spread" (text "no spread data for {} (live mode requires a recent tick)")
        else allowed
    | some spread ↦
        if f.lt g.r.max_spread_pct spread
        then rejected "spread" (template "spread {}% > max {}%" (spread ∷ g.r.max_spread_pct ∷ []))
        else allowed
  ]
