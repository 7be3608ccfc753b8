-- ===== src/Broker/Refusals.antt =====
-- The two outcomes of `place_order` in core/broker/paper.py.
use pypoc.Prelude.{
  String, ◌≡◌, refl, ◌⊎◌, inl, inr, none, some, string_eq, Option-cases, Bool-cases,
}
use pypoc.Prelude.Int.{pos, ltb_ℤ}
use pypoc.Prelude.Dict.{lookup, insert}
use pypoc.Prelude.Result.{ok, raises}
use pypoc.Numbers.{Float}
use pypoc.Types.{Order, filled, rejected, is_buy}
use pypoc.Broker.State.{PaperBroker, Outcome, then_do}
use pypoc.Broker.Positions.{worth, buying_power}
use pypoc.Broker.Orders.{Request, reject, fill, place_order, place_buy, place_sell, fill_price_of}

module _ {F : Type 0} ⦃f : Float F⦄ where
  -- An order that comes back is filled in full at one price, or rejected with nothing filled and
  -- with no change but its entry among the orders.
  abbrev pub IsSettled : Request F → F → PaperBroker F → Outcome F (Order F) → Type 0
  IsSettled r price b (ok o, b') =
      ((o.status ≡ filled) × (o.filled_qty ≡ r.qty) × (o.filled_price ≡ some price))
      ⊎ ((o.status ≡ rejected)
          × (o.filled_qty ≡ pos 0)
          × (o.filled_price ≡ none)
          × (b' ≡ record b { orders = insert r.id o b.orders }))
  IsSettled r price b (raises e, b') = Unit

  reject-IsSettled :
      (r : Request F) (price : F) (why : String) (b : PaperBroker F)
      → IsSettled r price b (reject r why b)
  unfolding reject
  reject-IsSettled r price why b = inr (refl, refl, refl, refl)

  fill-IsSettled :
      (r : Request F) (price : F) (b c : PaperBroker F) → IsSettled r price b (fill r price c)
  unfolding fill
  fill-IsSettled r price b c = inl (refl, refl, refl)

  then_fill-IsSettled :
      (r : Request F) (price : F) (b : PaperBroker F) (m : Outcome F (Unit {0}))
      (g : PaperBroker F → PaperBroker F)
      → IsSettled r price b (then_do m (λ b'. fill r price (g b')))
  unfolding then_do
  then_fill-IsSettled r price b (ok u, c) g = fill-IsSettled r price b (g c)
  then_fill-IsSettled r price b (raises e, c) g = tt

  place_buy-IsSettled :
      (r : Request F) (price charges : F) (b : PaperBroker F)
      → IsSettled r price b (place_buy r price charges b)
  unfolding place_buy
  place_buy-IsSettled r price charges b = elim (Option-cases (lookup r.symbol b.short_positions)) [
    | inr (p, e) ↦ rw (e, place_buy) (then_fill-IsSettled r price b _ _)
    | inl e ↦ elim (Bool-cases (f.lt (buying_power b) (f.add (worth r.qty price) charges))) [
      | inl poor ↦ rw (e, place_buy, poor) (reject-IsSettled r price "insufficient_cash" b)
      | inr rich ↦ rw (e, place_buy, rich) (then_fill-IsSettled r price b _ (λ c. c))
    ]
  ]

  place_sell-IsSettled :
      (r : Request F) (price charges : F) (b : PaperBroker F)
      → IsSettled r price b (place_sell r price charges b)
  unfolding place_sell
  place_sell-IsSettled r price charges b = elim (Option-cases (lookup r.symbol b.positions)) [
    | inr (p, e) ↦ elim (Bool-cases (ltb_ℤ p.qty r.qty)) [
      | inl short ↦ rw (e, place_sell, short) (reject-IsSettled r price "no_position_to_sell" b)
      | inr enough ↦ rw (e, place_sell, enough) (then_fill-IsSettled r price b _ _)
    ]
    | inl e ↦ elim (Bool-cases (f.lt (buying_power b) (f.add (worth r.qty price) charges))) [
      | inl poor ↦ rw (e, place_sell, poor) (reject-IsSettled r price "insufficient_cash" b)
      | inr rich ↦ rw (e, place_sell, rich) (fill-IsSettled r price b _)
    ]
  ]

  -- The fill price of an order: the latest price of its symbol with slippage, if there is one.
  unfoldable pub settled_price : Request F → PaperBroker F → F → F
  settled_price r b default = elim (lookup r.symbol b.latest_prices) [
    | none ↦ default
    | some ref ↦ fill_price_of r ref b
  ]

  -- Whatever the state, an order that does not raise is either filled, in full and at the latest
  -- price with slippage, or rejected, and then neither cash nor positions nor the trade log change.
  pub place_order-IsSettled :
      (r : Request F) (b : PaperBroker F) (default : F)
      → IsSettled r (settled_price r b default) b (place_order r b)
  unfolding place_order settled_price
  place_order-IsSettled r b default = elim (Option-cases (lookup r.symbol b.latest_prices)) [
    | inl e ↦ rw (e, place_order) (reject-IsSettled r _ "no_market_price" b)
    | inr (ref, e) ↦ elim (Bool-cases (is_buy r.side)) [
      | inl buys ↦ rw (e, place_order, buys, settled_price) (place_buy-IsSettled r _ _ b)
      | inr sells ↦ rw (e, place_order, sells, settled_price) (place_sell-IsSettled r _ _ b)
    ]
  ]
