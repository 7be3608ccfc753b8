-- ===== src/Risk/Guardrails/Sized.antt =====
-- `position_size` against the two rules on an order's size. Both read the same settings, as
-- `_handle_signal` of core/execution/orchestrator.py passes them.
use pypoc.Prelude.{◌≡◌, Bool, false, arith, inl, inr, ◌⊎◌, if◌then◌else◌}
use pypoc.Prelude.Int.{ℤ, pos, ◌*ℤ◌, ◌≤ℤ◌, ◌<ℤ◌, min_ℤ, max_ℤ, *ℤ-mono, zero-*ℤ}
use pypoc.Prelude.Result.{ok, raises, zero_division_error}
use pypoc.Numbers.{Float, IsExact, zero_f, percent}
use pypoc.Types.{Signal, risk_per_share}
use pypoc.Risk.Sizing.{position_size}
use pypoc.Risk.Guardrails.{
  Guardrails, PortfolioState, MarketContext, fudged, check_per_trade_risk, check_max_position_size,
}
use pypoc.Risk.Guardrails.Loop.{Allows}

-- A quantity of at most `a`, or none at all, costs at most what `a` costs.
capped_cost :
    (q a u v : ℤ) → pos 0 ≤ℤ u → pos 0 ≤ℤ v → a *ℤ u ≤ℤ v → (q ≤ℤ a) ⊎ (q ≡ pos 0) → q *ℤ u ≤ℤ v
capped_cost q a u v hu hv cost (inl le) = omega (arith, *ℤ-mono q a u hu le)
capped_cost q a u v hu hv cost (inr e) = rw (e, zero-*ℤ u) hv

capped_left : (a b : ℤ) → (max_ℤ (pos 0) (min_ℤ a b) ≤ℤ a) ⊎ (max_ℤ (pos 0) (min_ℤ a b) ≡ pos 0)
capped_left a b = ground arith

capped_right : (a b : ℤ) → (max_ℤ (pos 0) (min_ℤ a b) ≤ℤ b) ⊎ (max_ℤ (pos 0) (min_ℤ a b) ≡ pos 0)
capped_right a b = ground arith

sized_cases :
    (small zero : Bool) (v q : ℤ)
    → (if small then ok (pos 0) else if zero then raises zero_division_error else ok v) ≡ ok q
    → (q ≡ pos 0) ⊎ ((small ≡ false) × (q ≡ v))
sized_cases small zero v q e = ground arith

module _ {F : Type 0} ⦃f : Float F⦄ (exact : IsExact F) where
  open exact use {units}

  -- A cost of at most the budget is at most the fudged budget.
  within_fudged :
      (q : ℤ) (x budget : F)
      → pos 0 ≤ℤ units budget
      → q *ℤ units x ≤ℤ units budget
      → f.lt (fudged budget) (f.mul (f.of_int q) x) ≡ false
  within_fudged q x budget h le =
      rw (exact.lt-units (fudged budget) (f.mul (f.of_int q) x), exact.units-int_mul q x)
        (ground (arith, exact.mul_ratio_ge budget 1001 1000 (omega arith) (omega arith) h))

  positive_units : (x : F) → f.le x zero_f ≡ false → pos 0 <ℤ units x
  positive_units x h = ground (arith, exact.le-units x zero_f, exact.units-zero)

  capped_costs :
      (q : ℤ) (x y budget cap : F)
      → pos 0 ≤ℤ units budget
      → pos 0 ≤ℤ units cap
      → pos 0 <ℤ units x
      → pos 0 <ℤ units y
      → q ≡ max_ℤ (pos 0) (min_ℤ (f.trunc (f.floor_div budget x)) (f.trunc (f.floor_div cap y)))
      → (q *ℤ units x ≤ℤ units budget) × (q *ℤ units y ≤ℤ units cap)
  capped_costs q x y budget cap hb hc hx hy e =
      let a = f.trunc (f.floor_div budget x) in
      let b = f.trunc (f.floor_div cap y) in
      rw e (
        capped_cost _ a (units x) (units budget) (omega arith) hb (exact.floor_div_le budget x hx)
            (capped_left a b),
        capped_cost _ b (units y) (units cap) (omega arith) hc (exact.floor_div_le cap y hy)
            (capped_right a b),
      )

  module _ (g : Guardrails F) (s : Signal F) (p : PortfolioState F) (m : MarketContext F) where
    sized_costs :
        (q : ℤ)
        → pos 0 ≤ℤ units (f.mul p.equity (percent g.r.per_trade_risk_pct))
        → pos 0 ≤ℤ units (f.mul p.equity (percent g.r.max_position_pct))
        → pos 0 <ℤ units s.entry_price
        → position_size p.equity g.r.per_trade_risk_pct s g.r.max_position_pct ≡ ok q
        → (q *ℤ units (risk_per_share s) ≤ℤ units (f.mul p.equity (percent g.r.per_trade_risk_pct)))
          × (q *ℤ units s.entry_price ≤ℤ units (f.mul p.equity (percent g.r.max_position_pct)))
    unfolding position_size
    sized_costs q hr hm he e =
        elim (sized_cases (f.le (risk_per_share s) zero_f) (f.is_zero s.entry_price) _ q e) [
          | inl zero ↦
              rw (zero, zero-*ℤ (units (risk_per_share s)), zero-*ℤ (units s.entry_price)) (hr, hm)
          | inr (positive, chosen) ↦
              capped_costs q _ _ _ _ hr hm (positive_units _ positive) he chosen
        ]

    -- In exact arithmetic, a quantity that `position_size` computes from the equity and the limits
    -- of the guardrails passes both the rule on risk and the rule on position size, if the two
    -- budgets are not negative and the entry price is positive.
    pub position_size-Allows :
        (q : ℤ)
        → pos 0 ≤ℤ units (f.mul p.equity (percent g.r.per_trade_risk_pct))
        → pos 0 ≤ℤ units (f.mul p.equity (percent g.r.max_position_pct))
        → pos 0 <ℤ units s.entry_price
        → position_size p.equity g.r.per_trade_risk_pct s g.r.max_position_pct ≡ ok q
        → Allows (check_per_trade_risk g s q p m) × Allows (check_max_position_size g s q p m)
    unfolding check_per_trade_risk check_max_position_size
    position_size-Allows q hr hm he e =
        let (risk, size) = sized_costs q hr hm he e in
        ground (
          arith,
          within_fudged q (risk_per_share s) (f.mul p.equity (percent g.r.per_trade_risk_pct)) hr
              risk,
          within_fudged q s.entry_price (f.mul p.equity (percent g.r.max_position_pct)) hm size,
        )
