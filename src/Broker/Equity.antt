-- ===== src/Broker/Equity.antt =====
-- What an order does to the equity that `PaperBroker` reports, in exact arithmetic.
use pypoc.Prelude.{String, ◌≡◌, false, none, some, arith, string_eq}
use pypoc.Prelude.Int.{ℤ, pos, ◌+ℤ◌, ◌-ℤ◌, ◌*ℤ◌, int_laws, *ℤ-sub}
use pypoc.Prelude.Dict.{Dict, lookup, insert}
use pypoc.Numbers.{Float, IsExact, or_else}
use pypoc.Types.{Position, buy, sell, market_value}
use pypoc.Broker.State.{PaperBroker, now_of, then_do}
use pypoc.Broker.Positions.{
  worth, equity, short_pnl, buying_power, opened, open_or_add_long, open_short,
}
use pypoc.Broker.Orders.{Request, place_order, fill_price_of, order_charges}
use pypoc.Broker.Totals.{
  long_total, short_total, units-equity, sum_entries-insert_new, sum_entries-insert,
}

-- The position that a filled order opens.
abbrev pub opened_by : {F : Type 0} → Request F → F → PaperBroker F → Position F
opened_by r price b = opened r.symbol r.qty price r.stop_loss r.target r.strategy (now_of b)

module _ {F : Type 0} ⦃f : Float F⦄ (r : Request F) (b : PaperBroker F) (ref : F) where
  -- The price at which the order fills at the latest price `ref`, its charges and its cost.
  abbrev pub fill_at : F
  fill_at = fill_price_of r ref b

  abbrev pub charge_at : F
  charge_at = order_charges r fill_at b

  place_order-opens_long :
      lookup r.symbol b.latest_prices ≡ some ref
      → r.side ≡ buy
      → lookup r.symbol b.positions ≡ none
      → lookup r.symbol b.short_positions ≡ none
      → f.lt (buying_power b) (f.add (worth r.qty fill_at) charge_at) ≡ false
      → let b' = (place_order r b).1 in
        (b'.cash ≡ f.sub b.cash (f.add (worth r.qty fill_at) charge_at))
        × (b'.positions ≡ insert r.symbol (opened_by r fill_at b) b.positions)
        × (b'.short_positions ≡ b.short_positions)
  unfolding place_order open_or_add_long then_do
  place_order-opens_long seen side long short rich = (ground arith, ground arith, ground arith)

  place_order-opens_short :
      lookup r.symbol b.latest_prices ≡ some ref
      → r.side ≡ sell
      → lookup r.symbol b.positions ≡ none
      → f.lt (buying_power b) (f.add (worth r.qty fill_at) charge_at) ≡ false
      → let b' = (place_order r b).1 in
        (b'.cash ≡ f.sub b.cash (f.add (worth r.qty fill_at) charge_at))
        × (b'.positions ≡ b.positions)
        × (b'.short_positions ≡ insert r.symbol (opened_by r fill_at b) b.short_positions)
  unfolding place_order open_short then_do
  place_order-opens_short seen side long rich = (ground arith, ground arith, ground arith)

or_else_same : {F : Type 0} ⦃f : Float F⦄ (x : F) → or_else x x ≡ x
or_else_same x = ground arith

module _ {F : Type 0} ⦃f : Float F⦄ (exact : IsExact F) where
  open exact use {units}

  long_total-insert :
      (k : String) (p : Position F) (d : Dict String (Position F))
      → lookup k d ≡ none
      → long_total exact (insert k p d) ≡ long_total exact d +ℤ units (market_value p)
  long_total-insert = sum_entries-insert_new λ p. units (market_value p)

  short_total-insert :
      (k : String) (p : Position F) (d : Dict String (Position F))
      → lookup k d ≡ none
      → short_total exact (insert k p d) ≡ short_total exact d +ℤ units (short_pnl p)
  short_total-insert = sum_entries-insert_new λ p. units (short_pnl p)

  short_total-replace :
      (k : String) (p old : Position F) (d : Dict String (Position F))
      → lookup k d ≡ some old
      → short_total exact (insert k p d)
        ≡ short_total exact d +ℤ units (short_pnl p) -ℤ units (short_pnl old)
  short_total-replace = sum_entries-insert λ p. units (short_pnl p)

  value_at_cost : (q : ℤ) (x : F) → units (f.mul (f.of_int q) (or_else x x)) ≡ q *ℤ units x
  value_at_cost q x = rw (or_else_same x) (exact.units-int_mul q x)

  no_pnl_at_cost : (q : ℤ) (x : F) → units (f.mul (f.sub x x) (f.of_int q)) ≡ pos 0
  no_pnl_at_cost q x =
      rw (exact.units-mul_int q (f.sub x x), exact.units-sub x x, *ℤ-sub) (omega int_laws)

  module _ (r : Request F) (b : PaperBroker F) (ref : F) where
    new_value :
        units (market_value (opened_by r (fill_at r b ref) b)) ≡ r.qty *ℤ units (fill_at r b ref)
    unfolding market_value
    new_value = value_at_cost r.qty (fill_at r b ref)

    new_short_pnl : units (short_pnl (opened_by r (fill_at r b ref) b)) ≡ pos 0
    new_short_pnl = no_pnl_at_cost r.qty (fill_at r b ref)

    -- In exact arithmetic, a purchase that opens a long position and that the buying power covers
    -- lowers the equity by its charges and by nothing else: the new position is valued at the price
    -- that it was filled at, the slippage included.
    pub place_order-equity_long :
        lookup r.symbol b.latest_prices ≡ some ref
        → r.side ≡ buy
        → lookup r.symbol b.positions ≡ none
        → lookup r.symbol b.short_positions ≡ none
        → f.lt (buying_power b) (f.add (worth r.qty (fill_at r b ref)) (charge_at r b ref)) ≡ false
        → units (equity (place_order r b).1) ≡ units (equity b) -ℤ units (charge_at r b ref)
    place_order-equity_long seen side long short rich =
        let (cash, longs, shorts) = place_order-opens_long r b ref seen side long short rich in
        rw
          (
            units-equity exact (place_order r b).1,
            units-equity exact b,
            cash,
            longs,
            shorts,
            long_total-insert r.symbol (opened_by r (fill_at r b ref) b) b.positions long,
            new_value,
            exact.units-sub _ _,
            exact.units-add _ _,
            exact.units-int_mul _ _,
          )
          (omega int_laws)

    -- In exact arithmetic, a sale that opens a short position and that the buying power covers lowers
    -- the equity by its charges and by its whole cost: the margin that is held back leaves the cash
    -- and is counted nowhere.
    pub place_order-equity_short :
        lookup r.symbol b.latest_prices ≡ some ref
        → r.side ≡ sell
        → lookup r.symbol b.positions ≡ none
        → lookup r.symbol b.short_positions ≡ none
        → f.lt (buying_power b) (f.add (worth r.qty (fill_at r b ref)) (charge_at r b ref)) ≡ false
        → units (equity (place_order r b).1)
          ≡ units (equity b) -ℤ units (charge_at r b ref) -ℤ r.qty *ℤ units (fill_at r b ref)
    place_order-equity_short seen side long short rich =
        let (cash, longs, shorts) = place_order-opens_short r b ref seen side long rich in
        rw
          (
            units-equity exact (place_order r b).1,
            units-equity exact b,
            cash,
            longs,
            shorts,
            short_total-insert r.symbol (opened_by r (fill_at r b ref) b) b.short_positions short,
            new_short_pnl,
            exact.units-sub _ _,
            exact.units-add _ _,
            exact.units-int_mul _ _,
          )
          (omega int_laws)
