-- ===== src/Broker/Orders.antt =====
-- The order methods of `PaperBroker` in core/broker/paper.py. The id of a new order, a random
-- UUID in the source, is an argument.
use pypoc.Prelude.{String, Bool, true, false, ◌&&◌, Option, none, some, if◌then◌else◌, string_eq}
use pypoc.Prelude.Int.{ℤ, pos, ltb_ℤ, leb_ℤ, min_ℤ}
use pypoc.Prelude.Dict.{lookup, contains, insert}
use pypoc.Prelude.Result.{ok}
use pypoc.Numbers.{Float}
use pypoc.Types.{Side, buy, sell, is_buy, OrderType, pending, filled, rejected, cancelled, Order}
use pypoc.Broker.State.{PaperBroker, Outcome, then_do, notify_state_change}
use pypoc.Broker.Positions.{
  worth, buying_power, apply_slippage, charges_of, default_stamp_duty, open_or_add_long, open_short,
  close_long, cover_short,
}

-- The arguments of `place_order`, with the id that it draws.
pub record Request (F : Type 0) : Type 0 where
  pub id : String
  pub symbol : String
  pub side : Side
  pub qty : ℤ
  pub order_type : OrderType
  pub stop_loss : F
  pub target : Option F
  pub limit_price : Option F
  pub strategy : String

module _ {F : Type 0} ⦃f : Float F⦄ where
  unfoldable pub new_order : Request F → PaperBroker F → Order F
  new_order r b = record {
    id = r.id;
    symbol = r.symbol;
    side = r.side;
    qty = r.qty;
    order_type = r.order_type;
    limit_price = r.limit_price;
    stop_loss = r.stop_loss;
    target = r.target;
    status = pending;
    filled_price = none;
    filled_qty = pos 0;
    rejection_reason = none;
    strategy = r.strategy;
    ts = b.utc;
  }

  unfoldable pub reject : Request F → String → PaperBroker F → Outcome F (Order F)
  unfolding new_order
  reject r reason b =
      let order = record (new_order r b) { status = rejected; rejection_reason = some reason } in
      (ok order, record b { orders = insert r.id order b.orders })

  unfoldable pub fill : Request F → F → PaperBroker F → Outcome F (Order F)
  unfolding new_order notify_state_change
  fill r fill_price b =
      let order = record (new_order r b) {
        status = filled;
        filled_price = some fill_price;
        filled_qty = r.qty;
      } in
      (ok order, notify_state_change (record b { orders = insert r.id order b.orders }))

  unfoldable pub place_buy : Request F → F → F → PaperBroker F → Outcome F (Order F)
  unfolding reject fill
  place_buy r fill_price charges b = elim (lookup r.symbol b.short_positions) [
    | some short ↦ then_do (cover_short r.symbol r.qty fill_price charges "manual" b) (λ b'.
        fill r fill_price
          (record b' { cash = f.sub b'.cash (f.add (worth r.qty fill_price) charges) }))
    | none ↦
        let cost = worth r.qty fill_price in
        if f.lt (buying_power b) (f.add cost charges)
        then reject r "insufficient_cash" b
        else then_do
            (open_or_add_long r.symbol r.qty fill_price r.stop_loss r.target r.strategy
              (record b { cash = f.sub b.cash (f.add cost charges) }))
            (fill r fill_price)
  ]

  unfoldable pub place_sell : Request F → F → F → PaperBroker F → Outcome F (Order F)
  unfolding reject fill
  place_sell r fill_price charges b = elim (lookup r.symbol b.positions) [
    | some long ↦
        if ltb_ℤ long.qty r.qty
        then reject r "no_position_to_sell" b
        else then_do (close_long r.symbol r.qty fill_price charges "manual" b) (λ b'.
          fill r fill_price
            (record b' { cash = f.add b'.cash (f.sub (worth r.qty fill_price) charges) }))
    | none ↦
        let cost = worth r.qty fill_price in
        if f.lt (buying_power b) (f.add cost charges)
        then reject r "insufficient_cash" b
        else fill r fill_price (
            open_short r.symbol r.qty fill_price r.stop_loss r.target r.strategy
              (record b { cash = f.sub b.cash (f.add cost charges) }))
  ]

  -- The fill price of an order and its charges, which an order computes with the stamp duty of the
  -- settings.
  unfoldable pub fill_price_of : Request F → F → PaperBroker F → F
  fill_price_of r ref_price b = apply_slippage b ref_price r.side

  unfoldable pub order_charges : Request F → F → PaperBroker F → F
  order_charges r fill_price b =
      charges_of b r.side r.qty fill_price (is_buy r.side && contains r.symbol b.short_positions)
        b.exec.stamp_duty_pct

  unfoldable pub place_order : Request F → PaperBroker F → Outcome F (Order F)
  unfolding reject fill_price_of order_charges place_buy place_sell
  place_order r b = elim (lookup r.symbol b.latest_prices) [
    | none ↦ reject r "no_market_price" b
    | some ref_price ↦
        let fill_price = fill_price_of r ref_price b in
        let charges = order_charges r fill_price b in
        if is_buy r.side
        then place_buy r fill_price charges b
        else place_sell r fill_price charges b
  ]

  unfoldable pub cancel_order : String → PaperBroker F → Bool × PaperBroker F
  cancel_order order_id b = elim (lookup order_id b.orders) [
    | none ↦ (false, b)
    | some o ↦ elim o.status [
      | pending ↦
          (true, record b { orders = insert order_id (record o { status = cancelled }) b.orders })
      | _ ↦ (false, b)
    ]
  ]

  unfoldable pub partial_long : String → ℤ → F → String → PaperBroker F → Outcome F (Unit {0})
  unfolding notify_state_change
  partial_long symbol qty exit_price reason b =
      let fill_price = apply_slippage b exit_price sell in
      let charges = charges_of b sell qty fill_price false default_stamp_duty in
      if leb_ℤ qty (pos 0)
      then (ok tt, b)
      else then_do (close_long symbol qty fill_price charges reason b) (λ b'. (
        ok tt,
        notify_state_change
            (record b' { cash = f.add b'.cash (f.sub (worth qty fill_price) charges) }),
      ))

  unfoldable pub partial_short : String → ℤ → F → String → PaperBroker F → Outcome F (Unit {0})
  unfolding notify_state_change
  partial_short symbol qty exit_price reason b =
      let fill_price = apply_slippage b exit_price buy in
      let charges = charges_of b buy qty fill_price true default_stamp_duty in
      if leb_ℤ qty (pos 0)
      then (ok tt, b)
      else then_do (cover_short symbol qty fill_price charges reason b)
          (λ b'. (ok tt, notify_state_change b'))

  unfoldable pub partial_exit : String → ℤ → F → String → PaperBroker F → Outcome F (Unit {0})
  unfolding partial_long partial_short
  partial_exit symbol qty exit_price reason b = elim (lookup symbol b.positions) [
    | some p ↦ partial_long symbol (min_ℤ qty p.qty) exit_price reason b
    | none ↦ elim (lookup symbol b.short_positions) [
      | some p ↦ partial_short symbol (min_ℤ qty p.qty) exit_price reason b
      | none ↦ (ok tt, b)
    ]
  ]
