-- ===== src/Agent/Squared.antt =====
-- The square-off of core/execution/orchestrator.py closes long positions, and raises on a short one.
use pypoc.Prelude.Int.{ℤ}
use pypoc.Broker.Branches.{then_do-ok, then_do-raises}
use pypoc.Broker.Stops.{auto_exit-erases}
use pypoc.Prelude.{
  String, ◌≡◌, refl, ◌≤◌, List, [], ◌∷◌, ◌++◌, arith, none, string_eq, ap, ◌∙◌, false, ltb, ==-self,
}
use pypoc.Prelude.Dict.{Dict, lookup, values, Entries}
use pypoc.Prelude.Result.{ok, raises, key_error, Result}
use pypoc.Numbers.{Float, or_else}
use pypoc.Types.{DateTime, Position}
use pypoc.Risk.Clock.{parse_time, time_of_day}
use pypoc.Broker.State.{PaperBroker, then_do}
use pypoc.Broker.Positions.{close_long}
use pypoc.Broker.Prices.{auto_exit, get_positions}
use pypoc.Broker.Invariant.{IsValid, Held}
use pypoc.Agent.State.{Orchestrator}
use pypoc.Agent.Close.{close_all, maybe_squareoff_eod}

module _ {F : Type 0} ⦃f : Float F⦄ where
  -- The loop over the long positions, and what it leaves to the rest of the loop.
  close_all-longs :
      (d : Dict String (Position F)) (rest : List (Position F)) (b : PaperBroker F)
      → b.positions ≡ d
      → Entries Held d
      → (c : PaperBroker F) × (close_all (values d ++ rest) b ≡ close_all rest c)
        × (c.positions ≡ [])
        × (c.short_positions ≡ b.short_positions)
  unfolding close_all
  close_all-longs [] rest b e h = (b, refl, e, refl)
  close_all-longs ((k, p) ∷ d) rest b e (held, hs) =
      let price = or_else p.last_price p.avg_price in
      let (returns, longs, shorts) =
        auto_exit-erases k p p price "eod_squareoff" b held.0 (rw (e, ==-self k) refl) refl in
      let next = (auto_exit p price "eod_squareoff" b).1 in
      let first : next.positions ≡ d = rw (longs, e, ==-self k) refl in
      let (c, runs, none_long, same) = close_all-longs d rest next first hs in
      (c, then_do-ok _ (close_all (values d ++ rest)) returns ∙ runs, none_long, same ∙ shorts)

  close_long-missing :
      (k : String) (qty : ℤ) (price charges : F) (why : String) (b : PaperBroker F)
      → lookup k b.positions ≡ none
      → close_long k qty price charges why b ≡ (raises key_error, b)
  unfolding close_long
  close_long-missing k qty price charges why b e = rw (close_long, e) refl

  -- An exit of a position that is not long raises and changes nothing.
  auto_exit-missing :
      (p : Position F) (price : F) (why : String) (b : PaperBroker F)
      → b.positions ≡ []
      → auto_exit p price why b ≡ (raises key_error, b)
  unfolding auto_exit
  auto_exit-missing p price why b e =
      then_do-raises _ _ key_error b (close_long-missing p.symbol p.qty _ _ why b (rw e refl))

  -- How the square-off ends, by the short positions.
  abbrev pub closing : Dict String (Position F) → Result (Unit {0})
  closing [] = ok tt
  closing (s ∷ ss) = raises key_error

  close_all-shorts :
      (s : Dict String (Position F)) (b : PaperBroker F)
      → b.positions ≡ []
      → close_all (values s) b ≡ (closing s, b)
  unfolding close_all then_do
  close_all-shorts [] b e = refl
  close_all-shorts ((k, p) ∷ s) b e =
      ap (λ m. then_do m (close_all (values s))) (auto_exit-missing p _ "eod_squareoff" b e)

  -- From the time of the square-off on, the check closes every long position of a valid broker. If no
  -- position is short it returns; if one is, it raises a `KeyError` and leaves the short positions
  -- open.
  pub maybe_squareoff_eod-closes :
      (now squareoff : DateTime) (a : Orchestrator F)
      → parse_time a.guardrails.m.intraday_squareoff_at ≡ ok squareoff
      → squareoff ≤ time_of_day now
      → IsValid a.broker
      → let (r, b) = maybe_squareoff_eod now a in
        (r ≡ closing a.broker.short_positions)
        × (b.broker.positions ≡ [])
        × (b.broker.short_positions ≡ a.broker.short_positions)
  unfolding maybe_squareoff_eod get_positions
  maybe_squareoff_eod-closes now squareoff a parsed late v =
      let (c, runs, none_long, same) =
        close_all-longs a.broker.positions (values a.broker.short_positions) a.broker refl
          v.sides.long_held in
      let done = runs ∙ close_all-shorts a.broker.short_positions c none_long in
      let past : ltb (time_of_day now) squareoff ≡ false = ground arith in
      rw (parsed, maybe_squareoff_eod, past, done) (refl, none_long, same)
