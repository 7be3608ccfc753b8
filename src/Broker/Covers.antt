-- ===== src/Broker/Covers.antt =====
-- Two ways to buy back a short position of `PaperBroker`: a manual order and a partial exit.
use pypoc.Prelude.{String, ◌≡◌, true, none, some, arith, string_eq}
use pypoc.Prelude.Int.{pos, ◌+ℤ◌, ◌-ℤ◌, ◌*ℤ◌, ◌≤ℤ◌, ◌<ℤ◌, int_laws}
use pypoc.Prelude.Dict.{lookup}
use pypoc.Numbers.{Float, IsExact}
use pypoc.Types.{Position, buy}
use pypoc.Broker.State.{PaperBroker, then_do}
use pypoc.Broker.Positions.{worth, apply_slippage, charges_of, default_stamp_duty, cover_short}
use pypoc.Broker.Orders.{Request, place_order, partial_exit}

module _ {F : Type 0} ⦃f : Float F⦄ (r : Request F) (b : PaperBroker F) (ref : F) where
  -- The price of a purchase at `ref`.
  abbrev pub cover_price : F
  cover_price = apply_slippage b ref buy

  -- The charges of a cover at that price, by an order and by a partial exit.
  abbrev pub order_cover : F
  order_cover = charges_of b buy r.qty cover_price true b.exec.stamp_duty_pct

  abbrev pub exit_cover : F
  exit_cover = charges_of b buy r.qty cover_price true default_stamp_duty

  -- What `_cover_short` makes of the cash, with some charges.
  abbrev after_cover : Position F → F → F
  after_cover p charges = f.add b.cash (
      f.add (worth r.qty p.avg_price)
        (f.sub (f.mul (f.sub p.avg_price cover_price) (f.of_int r.qty)) charges))

module _ {F : Type 0} ⦃f : Float F⦄ (r : Request F) (b : PaperBroker F) (ref : F) (p : Position F)
    (seen : lookup r.symbol b.latest_prices ≡ some ref) (side : r.side ≡ buy)
    (no_long : lookup r.symbol b.positions ≡ none)
    (short : lookup r.symbol b.short_positions ≡ some p) (some_qty : pos 0 <ℤ r.qty)
    (held : r.qty ≤ℤ p.qty) where
  place_order-covers :
      (place_order r b).1.cash
      ≡ f.sub
          (after_cover r b ref p (order_cover r b ref))
          (f.add (worth r.qty (cover_price r b ref)) (order_cover r b ref))
  unfolding place_order cover_short then_do
  place_order-covers = ground arith

  partial_exit-covers :
      (why : String)
      → (partial_exit r.symbol r.qty ref why b).1.cash ≡ after_cover r b ref p (exit_cover r b ref)
  unfolding partial_exit cover_short then_do
  partial_exit-covers why = ground arith

  -- Buying back a part of a short position or all of it, in exact arithmetic: an order leaves the cash
  -- that a partial exit of the same quantity at the same price leaves, less the price of the shares
  -- and the order's charges, which the order subtracts a second time, and less what the order's
  -- charges exceed those of the exit, which have the default stamp duty.
  pub place_order-pays_twice :
      (exact : IsExact F) (why : String)
      → exact.units (place_order r b).1.cash
        ≡ exact.units (partial_exit r.symbol r.qty ref why b).1.cash
          -ℤ (r.qty *ℤ exact.units (cover_price r b ref) +ℤ exact.units (order_cover r b ref))
          -ℤ (exact.units (order_cover r b ref) -ℤ exact.units (exit_cover r b ref))
  place_order-pays_twice exact why =
      rw
        (
          place_order-covers,
          partial_exit-covers why,
          exact.units-sub (after_cover r b ref p (order_cover r b ref)) _,
          exact.units-add (worth r.qty (cover_price r b ref)) (order_cover r b ref),
          exact.units-int_mul r.qty (cover_price r b ref),
          exact.units-add b.cash _,
          exact.units-add b.cash _,
          exact.units-add (worth r.qty p.avg_price) _,
          exact.units-add (worth r.qty p.avg_price) _,
          exact.units-sub _ (order_cover r b ref),
          exact.units-sub _ (exit_cover r b ref),
        )
        (omega int_laws)
