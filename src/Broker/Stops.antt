-- ===== src/Broker/Stops.antt =====
-- What a price update of `PaperBroker` leaves behind: no position of the symbol whose stop or
-- target the price has reached.
use pypoc.Prelude.{
  String, ◌≡◌, refl, ◌⊎◌, inl, inr, false, some, arith, string_eq, Bool-cases, Option-cases,
  transfer_some, ==-self,
}
use pypoc.Prelude.Dict.{
  lookup, insert, erase, lookup-insert, lookup-erase_self, insert-Distinct, lookup-Entries,
}
use pypoc.Prelude.Result.{ok}
use pypoc.Numbers.{Float}
use pypoc.Types.{Position}
use pypoc.Broker.State.{PaperBroker, Outcome, then_do}
use pypoc.Broker.Positions.{close_long, cover_short}
use pypoc.Broker.Prices.{
  auto_exit, auto_exit_short, maybe_exit, maybe_exit_short, mark_long, mark_short, update_price,
}
use pypoc.Broker.Invariant.{Held, IsValid}
use pypoc.Broker.Branches.{then_do-ok}
use pypoc.Broker.Kept.{mark_long-keeps}
use pypoc.Broker.Reach.{IsValid-Kept}

module _ {F : Type 0} ⦃f : Float F⦄ where
  -- The last price lies strictly between the stop and the target.
  abbrev pub LongIsClear : Position F → Type 0
  LongIsClear p =
      (f.le p.last_price p.stop_loss ≡ false)
      × ((t : F) → p.target ≡ some t → f.le t p.last_price ≡ false)

  abbrev pub ShortIsClear : Position F → Type 0
  ShortIsClear p =
      (f.le p.stop_loss p.last_price ≡ false)
      × ((t : F) → p.target ≡ some t → f.le p.last_price t ≡ false)

  pub auto_exit-erases :
      (k : String) (p q : Position F) (price : F) (why : String) (b : PaperBroker F)
      → p.symbol ≡ k
      → lookup k b.positions ≡ some q
      → q.qty ≡ p.qty
      → let m = auto_exit p price why b in
        (m.0 ≡ ok tt)
        × (m.1.positions ≡ erase k b.positions)
        × (m.1.short_positions ≡ b.short_positions)
  unfolding auto_exit close_long then_do
  auto_exit-erases k p q price why b key e n = (ground arith, ground arith, ground arith)

  auto_exit_short-erases :
      (k : String) (p q : Position F) (price : F) (why : String) (b : PaperBroker F)
      → p.symbol ≡ k
      → lookup k b.short_positions ≡ some q
      → q.qty ≡ p.qty
      → let m = auto_exit_short p price why b in
        (m.0 ≡ ok tt)
        × (m.1.short_positions ≡ erase k b.short_positions)
        × (m.1.positions ≡ b.positions)
  unfolding auto_exit_short cover_short then_do
  auto_exit_short-erases k p q price why b key e n = (ground arith, ground arith, ground arith)

  -- A price check either finds the position clear, or exits it.
  maybe_exit-checks :
      (p : Position F) (b : PaperBroker F)
      → (LongIsClear p × (maybe_exit p b ≡ (ok tt, b)))
        ⊎ ((price : F) × (why : String) × (maybe_exit p b ≡ auto_exit p price why b))
  unfolding maybe_exit
  maybe_exit-checks p b = elim (Bool-cases (f.le p.last_price p.stop_loss)) [
    | inl hit ↦ inr (p.stop_loss, "stop_loss", rw hit)
    | inr clear ↦ elim (Option-cases p.target) [
      | inl e ↦ inl ((clear, λ t e'. ground arith), rw (clear, e))
      | inr (t, e) ↦ elim (Bool-cases (f.le t p.last_price)) [
        | inl hit ↦ inr (t, "target", rw (clear, e, maybe_exit, hit))
        | inr free ↦ inl ((clear, λ t' e'. ground arith), rw (clear, e, maybe_exit, free))
      ]
    ]
  ]

  maybe_exit_short-checks :
      (p : Position F) (b : PaperBroker F)
      → (ShortIsClear p × (maybe_exit_short p b ≡ (ok tt, b)))
        ⊎ ((price : F) × (why : String) × (maybe_exit_short p b ≡ auto_exit_short p price why b))
  unfolding maybe_exit_short
  maybe_exit_short-checks p b = elim (Bool-cases (f.le p.stop_loss p.last_price)) [
    | inl hit ↦ inr (p.stop_loss, "stop_loss", rw hit)
    | inr clear ↦ elim (Option-cases p.target) [
      | inl e ↦ inl ((clear, λ t e'. ground arith), rw (clear, e))
      | inr (t, e) ↦ elim (Bool-cases (f.le p.last_price t)) [
        | inl hit ↦ inr (t, "target", rw (clear, e, maybe_exit_short, hit))
        | inr free ↦ inl ((clear, λ t' e'. ground arith), rw (clear, e, maybe_exit_short, free))
      ]
    ]
  ]

  -- The outcome of a price for one side: it returns, keeps the other side, and what is left of the
  -- symbol carries the price and is clear.
  abbrev LongDone : String → F → PaperBroker F → Outcome F (Unit {0}) → Type 0
  LongDone k px b m =
      (m.0 ≡ ok tt)
      × (m.1.short_positions ≡ b.short_positions)
      × ((p : Position F) → lookup k m.1.positions ≡ some p → (p.last_price ≡ px) × LongIsClear p)

  abbrev ShortDone : String → F → PaperBroker F → Outcome F (Unit {0}) → Type 0
  ShortDone k px b m =
      (m.0 ≡ ok tt)
      × (m.1.positions ≡ b.positions)
      × ((p : Position F)
          → lookup k m.1.short_positions ≡ some p
          → (p.last_price ≡ px) × ShortIsClear p)

  mark_long-LongDone :
      (k : String) (px : F) (b : PaperBroker F) → IsValid b → LongDone k px b (mark_long k px b)
  unfolding mark_long
  mark_long-LongDone k px b v = elim (Option-cases (lookup k b.positions)) [
    | inl e ↦ rw (e, mark_long) (refl, refl, λ p e'. absurd (ground arith))
    | inr (p, e) ↦
        let (key, _) = lookup-Entries Held k b.positions v.sides.long_held e in
        let marked = record p { last_price = px } in
        let b' = record b { positions = insert k marked b.positions } in
        let found : lookup k b'.positions ≡ some marked =
          rw (lookup-insert k k marked b.positions, ==-self k) in
        let empty =
          lookup-erase_self k b'.positions
            (insert-Distinct k marked b.positions v.sides.long_keys) in
        elim (maybe_exit-checks marked b') [
          | inl (clear, stays) ↦
              rw (e, mark_long, stays)
                (
                  refl,
                  refl,
                  λ q e'.
                      transfer_some (λ p. (p.last_price ≡ px) × LongIsClear p) found e'
                        (refl, clear),
                )
          | inr (price, why, leaves) ↦
              let (returns, gone, other) =
                auto_exit-erases k marked marked price why b' key found refl in
              rw (e, mark_long, leaves) (returns, other, λ q e'. absurd (ground (arith, empty)))
        ]
  ]

  mark_short-ShortDone :
      (k : String) (px : F) (b : PaperBroker F) → IsValid b → ShortDone k px b (mark_short k px b)
  unfolding mark_short
  mark_short-ShortDone k px b v = elim (Option-cases (lookup k b.short_positions)) [
    | inl e ↦ rw (e, mark_short) (refl, refl, λ p e'. absurd (ground arith))
    | inr (p, e) ↦
        let (key, _) = lookup-Entries Held k b.short_positions v.sides.short_held e in
        let marked = record p { last_price = px } in
        let b' = record b { short_positions = insert k marked b.short_positions } in
        let found : lookup k b'.short_positions ≡ some marked =
          rw (lookup-insert k k marked b.short_positions, ==-self k) in
        let empty =
          lookup-erase_self k b'.short_positions
            (insert-Distinct k marked b.short_positions v.sides.short_keys) in
        elim (maybe_exit_short-checks marked b') [
          | inl (clear, stays) ↦
              rw (e, mark_short, stays)
                (
                  refl,
                  refl,
                  λ q e'.
                      transfer_some (λ p. (p.last_price ≡ px) × ShortIsClear p) found e'
                        (refl, clear),
                )
          | inr (price, why, leaves) ↦
              let (returns, gone, other) =
                auto_exit_short-erases k marked marked price why b' key found refl in
              rw (e, mark_short, leaves) (returns, other, λ q e'. absurd (ground (arith, empty)))
        ]
  ]

  -- A price that reaches the broker never raises, and afterwards no position of the symbol has a
  -- stop or a target that the price has reached: what is left carries the price, which lies strictly
  -- between the two.
  pub update_price-clears :
      (k : String) (px : F) (b : PaperBroker F)
      → IsValid b
      → let (r, b') = update_price k px b in
        (r ≡ ok tt)
        × ((p : Position F) → lookup k b'.positions ≡ some p → (p.last_price ≡ px) × LongIsClear p)
        × ((p : Position F)
            → lookup k b'.short_positions ≡ some p
            → (p.last_price ≡ px) × ShortIsClear p)
  unfolding update_price
  update_price-clears k px b v =
      let start = record b { latest_prices = insert k px b.latest_prices } in
      let v' : IsValid start = record { sides = v.sides } in
      let (returns, _, longs) = mark_long-LongDone k px start v' in
      let next = (mark_long k px start).1 in
      let (returns', same, shorts) =
        mark_short-ShortDone k px next (mark_long-keeps IsValid IsValid-Kept k px start v') in
      rw (then_do-ok (mark_long k px start) (mark_short k px) returns)
        (returns', rw same longs, shorts)
