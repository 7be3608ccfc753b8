-- ===== src/Examples/BrokerRuns.antt =====
-- The paper broker on short histories.
use pypoc.Prelude.{Bool, ◌≡◌, refl, inr, none, some, List, [], ◌∷◌, false, arith, string_eq}
use pypoc.Prelude.Int.{floor_ℤ, pos, ◌-ℤ◌, ◌+ℤ◌, ◌*ℤ◌}
use pypoc.Prelude.Dict.{lookup}
use pypoc.Prelude.Result.{ok}
use pypoc.Numbers.{floor_quotient, Micro, micro_float, Micro-IsExact, zero_f}
use pypoc.Types.{buy, sell, Position}
use pypoc.Broker.State.{PaperBroker, new_broker, snapshot_state, Snapshot}
use pypoc.Broker.Charges.{compute_charges, total}
use pypoc.Broker.Positions.{apply_slippage, charges_of, equity, worth, buying_power}
use pypoc.Broker.Orders.{fill_price_of, order_charges, Request, place_order, partial_exit}
use pypoc.Broker.Prices.{update_price}
use pypoc.Broker.Snapshot.{restore_state, restore_state-snapshot_state}
use pypoc.Broker.Calls.{Call, ordered, priced, run}
use pypoc.Broker.Invariant.{IsValid}
use pypoc.Broker.Reach.{run-new_broker-IsValid, run-new_broker-IsBooked, booked}
use pypoc.Broker.Stops.{update_price-clears, LongIsClear, ShortIsClear}
use pypoc.Broker.Refusals.{IsSettled, settled_price, place_order-IsSettled}
use pypoc.Broker.Equity.{place_order-equity_long, place_order-equity_short, fill_at, charge_at}
use pypoc.Broker.Covers.{place_order-pays_twice, cover_price, order_cover, exit_cover}
use pypoc.Examples.Data.{rupees, execution_cfg, ten_oclock, position, broker, request}

-- A price comes, ten shares are bought, and the price falls through the stop.
abbrev history : List (Call Micro)
history =
    priced (("TCS", rupees 100) ∷ [])
    ∷ ordered (request buy 10)
    ∷ priced (("TCS", rupees 97) ∷ [])
    ∷ []

run-new_broker-IsValid_example :
    IsValid (run (new_broker (rupees 100_000) execution_cfg ten_oclock) history)
run-new_broker-IsValid_example =
    run-new_broker-IsValid (rupees 100_000) execution_cfg ten_oclock history
      (tt, (omega arith, (tt, tt)))

-- A snapshot with a profit and no positions.
abbrev saved : Snapshot Micro
saved = record { cash = none; realized_pnl = some (rupees 250); longs = none; shorts = none }

run-new_broker-IsBooked_example :
    let fresh = new_broker (rupees 100_000) execution_cfg ten_oclock in
    let again = (restore_state saved fresh).1 in
    ((run fresh history).realized_pnl ≡ booked zero_f (run fresh history).trade_log)
    × (again.realized_pnl ≡ rupees 250)
    × ((run again history).realized_pnl ≡ booked (rupees 250) (run again history).trade_log)
run-new_broker-IsBooked_example =
    run-new_broker-IsBooked (rupees 100_000) execution_cfg ten_oclock saved history
      (tt, (omega arith, (tt, tt)))

abbrev tcs : Position Micro
tcs = position "TCS" 10 100 98 none

abbrev tcs_short : Position Micro
tcs_short = position "TCS" 10 100 102 none

abbrev flat : PaperBroker Micro
flat = broker [] []

abbrev long : PaperBroker Micro
long = broker (("TCS", tcs) ∷ []) []

abbrev short : PaperBroker Micro
short = broker [] (("TCS", tcs_short) ∷ [])

long-IsValid : IsValid long
long-IsValid = record {
  sides = record {
    long_keys = (refl, tt);
    short_keys = tt;
    long_held = ((refl, omega arith), tt);
    short_held = tt;
    apart = λ k. inr refl;
  };
}

update_price-clears_example :
    let (r, b) = update_price "TCS" (rupees 97) long in
    (r ≡ ok tt)
    × ((p : Position Micro)
        → lookup "TCS" b.positions ≡ some p
        → (p.last_price ≡ rupees 97) × LongIsClear p)
    × ((p : Position Micro)
        → lookup "TCS" b.short_positions ≡ some p
        → (p.last_price ≡ rupees 97) × ShortIsClear p)
update_price-clears_example = update_price-clears "TCS" (rupees 97) long long-IsValid

place_order-IsSettled_example :
    IsSettled
      (request sell 20)
      (settled_price (request sell 20) long (pos 0))
      long
      (place_order (request sell 20) long)
place_order-IsSettled_example = place_order-IsSettled (request sell 20) long (pos 0)

restore_state-snapshot_state_example : restore_state (snapshot_state long) flat ≡ (
  ok tt,
  record flat {
    cash = long.cash;
    realized_pnl = long.realized_pnl;
    positions = long.positions;
    short_positions = long.short_positions;
  },
)
restore_state-snapshot_state_example =
    restore_state-snapshot_state long flat (refl, tt) tt (refl, tt) tt

place_order-pays_twice_example :
    let units = Micro-IsExact.units in
    let r = request buy 4 in
    units (place_order r short).1.cash
    ≡ units (partial_exit "TCS" (pos 4) (rupees 100) "partial" short).1.cash
      -ℤ (pos 4 *ℤ units (cover_price r short (rupees 100))
          +ℤ units (order_cover r short (rupees 100)))
      -ℤ (units (order_cover r short (rupees 100)) -ℤ units (exit_cover r short (rupees 100)))
place_order-pays_twice_example =
    place_order-pays_twice (request buy 4) short (rupees 100) tcs_short refl refl refl refl
      (omega arith) (omega arith) Micro-IsExact "partial"

-- The test of the buying power, for a fill at the latest price of the symbol.
abbrev is_short_of_cash : Request Micro → PaperBroker Micro → Bool
is_short_of_cash r b =
    micro_float.lt (buying_power b)
      (micro_float.add (worth r.qty (fill_at r b (rupees 100))) (charge_at r b (rupees 100)))

affords_ten : is_short_of_cash (request buy 10) flat ≡ false
unfolding equity buying_power fill_price_of order_charges apply_slippage charges_of compute_charges
    total floor_quotient floor_ℤ ◌*ℤ◌ ◌-ℤ◌ ◌+ℤ◌
affords_ten = refl

place_order-equity_long_example :
    let units = Micro-IsExact.units in
    let r = request buy 10 in
    units (equity (place_order r flat).1)
    ≡ units (equity flat) -ℤ units (charge_at r flat (rupees 100))
place_order-equity_long_example =
    place_order-equity_long Micro-IsExact (request buy 10) flat (rupees 100) refl refl refl refl
      affords_ten

sells_ten : is_short_of_cash (request sell 10) flat ≡ false
unfolding equity buying_power fill_price_of order_charges apply_slippage charges_of compute_charges
    total floor_quotient floor_ℤ ◌*ℤ◌ ◌-ℤ◌ ◌+ℤ◌
sells_ten = refl

place_order-equity_short_example :
    let units = Micro-IsExact.units in
    let r = request sell 10 in
    units (equity (place_order r flat).1)
    ≡ units (equity flat)
      -ℤ units (charge_at r flat (rupees 100))
      -ℤ pos 10 *ℤ units (fill_at r flat (rupees 100))
place_order-equity_short_example =
    place_order-equity_short Micro-IsExact (request sell 10) flat (rupees 100) refl refl refl refl
      sells_ten
