-- ===== src/Broker/Kept.antt =====
-- A property that the internals of `PaperBroker` keep is kept by every call from outside.
use pypoc.Prelude.{
  String, ◌≡◌, refl, inl, inr, Option, none, some, List, [], ◌∷◌, All, arith, string_eq, Bool-cases,
  Option-cases,
}
use pypoc.Prelude.Int.{ℤ, pos, ◌<ℤ◌, leb_ℤ, ltb_ℤ, min_ℤ}
use pypoc.Prelude.Dict.{Dict, lookup, insert}
use pypoc.Prelude.Result.{ok, raises}
use pypoc.Numbers.{Float}
use pypoc.Types.{is_buy, Position}
use pypoc.Broker.State.{PaperBroker, Outcome, then_do}
use pypoc.Broker.Positions.{
  worth, buying_power, open_or_add_long, open_short, close_long, cover_short,
}
use pypoc.Broker.Orders.{
  Request, place_buy, place_sell, place_order, cancel_order, partial_long, partial_short,
  partial_exit,
}
use pypoc.Broker.Prices.{
  auto_exit, auto_exit_short, mark_long, mark_short, update_price, update_market_prices,
}
use pypoc.Broker.Calls.{Call, ordered, cancels, priced, exits, step, run, IsSound}
use pypoc.Broker.Branches.{maybe_exit_cases, maybe_exit_short_cases}

module _ {F : Type 0} ⦃f : Float F⦄ where
  -- What the internals have to keep. `frame` is for changes of the other fields.
  pub record Kept (P : PaperBroker F → Type 0) : Type 0 where
    pub frame :
        (b c : PaperBroker F)
        → c.positions ≡ b.positions
        → c.short_positions ≡ b.short_positions
        → c.trade_log ≡ b.trade_log
        → c.realized_pnl ≡ b.realized_pnl
        → P b
        → P c
    pub close :
        (k : String) (qty : ℤ) (price charges : F) (why : String) (b : PaperBroker F)
        → P b
        → P (close_long k qty price charges why b).1
    pub cover :
        (k : String) (qty : ℤ) (price charges : F) (why : String) (b : PaperBroker F)
        → P b
        → P (cover_short k qty price charges why b).1
    pub grow :
        (k : String) (qty : ℤ) (price stop : F) (target : Option F) (strategy : String)
        (b : PaperBroker F)
        → P b
        → pos 0 <ℤ qty
        → lookup k b.short_positions ≡ none
        → P (open_or_add_long k qty price stop target strategy b).1
    pub short :
        (k : String) (qty : ℤ) (price stop : F) (target : Option F) (strategy : String)
        (b : PaperBroker F)
        → P b
        → pos 0 <ℤ qty
        → lookup k b.positions ≡ none
        → P (open_short k qty price stop target strategy b)
    pub mark :
        (k : String) (px : F) (p : Position F) (b : PaperBroker F)
        → lookup k b.positions ≡ some p
        → P b
        → P (record b { positions = insert k (record p { last_price = px }) b.positions })
    pub mark_short :
        (k : String) (px : F) (p : Position F) (b : PaperBroker F)
        → lookup k b.short_positions ≡ some p
        → P b
        → P (record b {
          short_positions = insert k (record p { last_price = px }) b.short_positions;
        })

  cancel_order-frame :
      (id : String) (b : PaperBroker F)
      → let c = (cancel_order id b).1 in
        (c.positions ≡ b.positions)
        × (c.short_positions ≡ b.short_positions)
        × (c.trade_log ≡ b.trade_log)
        × (c.realized_pnl ≡ b.realized_pnl)
  unfolding cancel_order
  cancel_order-frame id b = (ground arith, ground arith, ground arith, ground arith)

module _ {F : Type 0} ⦃f : Float F⦄ (P : PaperBroker F → Type 0) (kept : Kept P) where
  -- A later step keeps what the first has kept.
  pub then_do-keeps :
      {A : Type 0} (m : Outcome F (Unit {0})) (next : PaperBroker F → Outcome F A)
      → P m.1
      → (m.0 ≡ ok tt → P (next m.1).1)
      → P (then_do m next).1
  unfolding then_do
  then_do-keeps (ok u, b) next v keep = keep refl
  then_do-keeps (raises e, b) next v keep = v

  place_buy-keeps :
      (r : Request F) (price charges : F) (b : PaperBroker F)
      → P b
      → pos 0 <ℤ r.qty
      → P (place_buy r price charges b).1
  unfolding place_buy
  place_buy-keeps r price charges b v h = elim (Option-cases (lookup r.symbol b.short_positions)) [
    | inr (p, e) ↦
        let covered = kept.cover r.symbol r.qty price charges "manual" b v in
        rw (e, place_buy)
          (then_do-keeps _ _ covered (λ _. kept.frame _ _ refl refl refl refl covered))
    | inl e ↦
        let paid = record b { cash = f.sub b.cash (f.add (worth r.qty price) charges) } in
        let bought =
          kept.grow r.symbol r.qty price r.stop_loss r.target r.strategy paid
            (kept.frame b paid refl refl refl refl v) h e in
        elim (Bool-cases (f.lt (buying_power b) (f.add (worth r.qty price) charges))) [
          | inl poor ↦ rw (e, place_buy, poor) (kept.frame b _ refl refl refl refl v)
          | inr rich ↦
              rw (e, place_buy, rich)
                (then_do-keeps _ _ bought (λ _. kept.frame _ _ refl refl refl refl bought))
        ]
  ]

  place_sell-keeps :
      (r : Request F) (price charges : F) (b : PaperBroker F)
      → P b
      → pos 0 <ℤ r.qty
      → P (place_sell r price charges b).1
  unfolding place_sell
  place_sell-keeps r price charges b v h = elim (Option-cases (lookup r.symbol b.positions)) [
    | inl e ↦
        let paid = record b { cash = f.sub b.cash (f.add (worth r.qty price) charges) } in
        let sold =
          kept.short r.symbol r.qty price r.stop_loss r.target r.strategy paid
            (kept.frame b paid refl refl refl refl v) h e in
        elim (Bool-cases (f.lt (buying_power b) (f.add (worth r.qty price) charges))) [
          | inl poor ↦ rw (e, place_sell, poor) (kept.frame b _ refl refl refl refl v)
          | inr rich ↦ rw (e, place_sell, rich) (kept.frame _ _ refl refl refl refl sold)
        ]
    | inr (p, e) ↦
        let closed = kept.close r.symbol r.qty price charges "manual" b v in
        elim (Bool-cases (ltb_ℤ p.qty r.qty)) [
          | inl short ↦ rw (e, place_sell, short) (kept.frame b _ refl refl refl refl v)
          | inr enough ↦
              rw (e, place_sell, enough)
                (then_do-keeps _ _ closed (λ _. kept.frame _ _ refl refl refl refl closed))
        ]
  ]

  pub place_order-keeps :
      (r : Request F) (b : PaperBroker F) → P b → pos 0 <ℤ r.qty → P (place_order r b).1
  unfolding place_order
  place_order-keeps r b v h = elim (Option-cases (lookup r.symbol b.latest_prices)) [
    | inl e ↦ rw (e, place_order) (kept.frame b _ refl refl refl refl v)
    | inr (ref, e) ↦ elim (Bool-cases (is_buy r.side)) [
      | inl yes' ↦ rw (e, place_order, yes') (place_buy-keeps r _ _ b v h)
      | inr no' ↦ rw (e, place_order, no') (place_sell-keeps r _ _ b v h)
    ]
  ]

  pub auto_exit-keeps :
      (p : Position F) (price : F) (why : String) (b : PaperBroker F)
      → P b
      → P (auto_exit p price why b).1
  unfolding auto_exit
  auto_exit-keeps p price why b v =
      let closed = kept.close p.symbol p.qty _ _ why b v in
      then_do-keeps _ _ closed (λ _. kept.frame _ _ refl refl refl refl closed)

  auto_exit_short-keeps :
      (p : Position F) (price : F) (why : String) (b : PaperBroker F)
      → P b
      → P (auto_exit_short p price why b).1
  unfolding auto_exit_short
  auto_exit_short-keeps p price why b v =
      let covered = kept.cover p.symbol p.qty _ _ why b v in
      then_do-keeps _ _ covered (λ _. kept.frame _ _ refl refl refl refl covered)

  pub mark_long-keeps : (k : String) (px : F) (b : PaperBroker F) → P b → P (mark_long k px b).1
  unfolding mark_long
  mark_long-keeps k px b v = elim (Option-cases (lookup k b.positions)) [
    | inl e ↦ rw (e, mark_long) v
    | inr (p, e) ↦
        let marked = record p { last_price = px } in
        let b' = record b { positions = insert k marked b.positions } in
        let v' = kept.mark k px p b e v in
        rw (e, mark_long)
          (maybe_exit_cases (λ m. P m.1) marked b' v'
            λ price why. auto_exit-keeps marked price why b' v')
  ]

  mark_short-keeps : (k : String) (px : F) (b : PaperBroker F) → P b → P (mark_short k px b).1
  unfolding mark_short
  mark_short-keeps k px b v = elim (Option-cases (lookup k b.short_positions)) [
    | inl e ↦ rw (e, mark_short) v
    | inr (p, e) ↦
        let marked = record p { last_price = px } in
        let b' = record b { short_positions = insert k marked b.short_positions } in
        let v' = kept.mark_short k px p b e v in
        rw (e, mark_short)
          (maybe_exit_short_cases (λ m. P m.1) marked b' v'
            λ price why. auto_exit_short-keeps marked price why b' v')
  ]

  update_price-keeps : (k : String) (px : F) (b : PaperBroker F) → P b → P (update_price k px b).1
  unfolding update_price
  update_price-keeps k px b v =
      let marked = mark_long-keeps k px _ (kept.frame b _ refl refl refl refl v) in
      then_do-keeps _ _ marked λ _. mark_short-keeps k px _ marked

  pub update_market_prices-keeps :
      (prices : Dict String F) (b : PaperBroker F) → P b → P (update_market_prices prices b).1
  unfolding update_market_prices
  update_market_prices-keeps [] b v = v
  update_market_prices-keeps ((k, px) ∷ prices) b v =
      let first = update_price-keeps k px b v in
      then_do-keeps _ _ first λ _. update_market_prices-keeps prices _ first

  partial_long-keeps :
      (k : String) (qty : ℤ) (price : F) (why : String) (b : PaperBroker F)
      → P b
      → P (partial_long k qty price why b).1
  unfolding partial_long
  partial_long-keeps k qty price why b v =
      let closed = kept.close k qty _ _ why b v in
      elim (Bool-cases (leb_ℤ qty (pos 0))) [
        | inl empty ↦ rw (partial_long, empty) v
        | inr some_qty ↦
            rw (partial_long, some_qty)
              (then_do-keeps _ _ closed λ _. kept.frame _ _ refl refl refl refl closed)
      ]

  partial_short-keeps :
      (k : String) (qty : ℤ) (price : F) (why : String) (b : PaperBroker F)
      → P b
      → P (partial_short k qty price why b).1
  unfolding partial_short
  partial_short-keeps k qty price why b v =
      let covered = kept.cover k qty _ _ why b v in
      elim (Bool-cases (leb_ℤ qty (pos 0))) [
        | inl empty ↦ rw (partial_short, empty) v
        | inr some_qty ↦
            rw (partial_short, some_qty)
              (then_do-keeps _ _ covered λ _. kept.frame _ _ refl refl refl refl covered)
      ]

  partial_exit-keeps :
      (k : String) (qty : ℤ) (price : F) (why : String) (b : PaperBroker F)
      → P b
      → P (partial_exit k qty price why b).1
  unfolding partial_exit
  partial_exit-keeps k qty price why b v = elim (Option-cases (lookup k b.positions)) [
    | inr (p, e) ↦ rw (e, partial_exit) (partial_long-keeps k (min_ℤ qty p.qty) price why b v)
    | inl e ↦ elim (Option-cases (lookup k b.short_positions)) [
      | inr (p, e') ↦
          rw (e, e', partial_exit) (partial_short-keeps k (min_ℤ qty p.qty) price why b v)
      | inl e' ↦ rw (e, e', partial_exit) v
    ]
  ]

  cancel_order-keeps : (id : String) (b : PaperBroker F) → P b → P (cancel_order id b).1
  cancel_order-keeps id b v =
      let (long, short, log, pnl) = cancel_order-frame id b in kept.frame b _ long short log pnl v

  pub step-keeps : (b : PaperBroker F) (c : Call F) → IsSound c → P b → P (step b c)
  unfolding step
  step-keeps b (ordered r) h v = place_order-keeps r b v h
  step-keeps b (cancels id) h v = cancel_order-keeps id b v
  step-keeps b (priced prices) h v = update_market_prices-keeps prices b v
  step-keeps b (exits k qty price why) h v = partial_exit-keeps k qty price why b v

  pub run-keeps : (cs : List (Call F)) (b : PaperBroker F) → All IsSound cs → P b → P (run b cs)
  unfolding run
  run-keeps [] b h v = v
  run-keeps (c ∷ cs) b h v = run-keeps cs (step b c) h.1 (step-keeps b c h.0 v)
