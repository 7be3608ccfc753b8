-- ===== src/Broker/Reach.antt =====
-- Histories of calls of `PaperBroker` in core/broker/paper.py: the invariant of the positions and
-- the realized profit.
use pypoc.Prelude.{
  get_or, String, Option, ◌≡◌, ◌∙◌, ap, refl, inl, inr, List, [], ◌∷◌, ◌++◌, foldl, map, All, arith,
  string_eq, Option-cases,
}
use pypoc.Prelude.Int.{ℤ}
use pypoc.Prelude.Dict.{lookup, lookup-Entries}
use pypoc.Numbers.{Float, zero_f}
use pypoc.Types.{DateTime}
use pypoc.Config.{ExecutionCfg}
use pypoc.Broker.State.{PaperBroker, TradeRecord, new_broker, Snapshot}
use pypoc.Broker.Positions.{open_or_add_long, open_short, close_long, cover_short}
use pypoc.Broker.Snapshot.{restore_state, restore_state-trade_log, restore_state-realized_pnl}
use pypoc.Broker.Calls.{Call, IsSound, step, run}
use pypoc.Broker.Kept.{Kept, step-keeps, run-keeps}
use pypoc.Broker.Invariant.{
  Held, IsValid, AreValid-swap, insert-AreValid, apart_of, close_long-IsValid, cover_short-IsValid,
  open_or_add_long-IsValid, open_short-IsValid,
}

module _ {F : Type 0} ⦃f : Float F⦄ where
  pub IsValid-Kept : Kept {F = F} IsValid
  IsValid-Kept = record {
    frame = λ b c e e' _ _ v. record { sides = rw (e, e') v.sides };
    close = close_long-IsValid;
    cover = cover_short-IsValid;
    grow = open_or_add_long-IsValid;
    short = open_short-IsValid;
    mark = λ k px p b e v. record {
      sides =
          insert-AreValid k (record p { last_price = px })
            (lookup-Entries Held k b.positions v.sides.long_held e) (apart_of k v.sides e) v.sides;
    };
    mark_short = λ k px p b e v.
        let sides = AreValid-swap v.sides in
        record {
          sides = AreValid-swap (
              insert-AreValid k (record p { last_price = px })
                (lookup-Entries Held k b.short_positions v.sides.short_held e) (apart_of k sides e)
                sides);
        };
  }

  -- Every call keeps the invariant, also one that raises: positions stand under their symbols, once
  -- each and with positive quantities, and no symbol is both long and short.
  pub step-IsValid : (b : PaperBroker F) (c : Call F) → IsSound c → IsValid b → IsValid (step b c)
  step-IsValid = step-keeps IsValid IsValid-Kept

  -- From a new broker, no history of orders with positive quantities, cancellations, prices and
  -- partial exits leaves the invariant: at its end no symbol is both long and short, and every
  -- position has a positive quantity.
  pub run-new_broker-IsValid :
      (starting_cash : F) (cfg : ExecutionCfg F) (utc : DateTime) (cs : List (Call F))
      → All IsSound cs
      → IsValid (run (new_broker starting_cash cfg utc) cs)
  unfolding new_broker
  run-new_broker-IsValid starting_cash cfg utc cs h =
      run-keeps IsValid IsValid-Kept cs _ h (record {
        sides = record {
          long_keys = tt;
          short_keys = tt;
          long_held = tt;
          short_held = tt;
          apart = λ k. inl refl;
        };
      })

  abbrev pub booked : F → List (TradeRecord F) → F
  booked start log = foldl f.add start (map (λ t. t.pnl) log)

  -- The realized profit, as the trades recorded since it was `start` add up.
  pub record IsBooked (start : F) (b : PaperBroker F) : Type 0 where
    pub adds_up : b.realized_pnl ≡ booked start b.trade_log

  booked-snoc :
      (start : F) (log : List (TradeRecord F)) (t : TradeRecord F)
      → booked start (log ++ (t ∷ [])) ≡ f.add (booked start log) t.pnl
  booked-snoc start [] t = refl
  booked-snoc start (u ∷ log) t = booked-snoc (f.add start u.pnl) log t

  close_long-IsBooked :
      (start : F) (k : String) (qty : ℤ) (price charges : F) (why : String) (b : PaperBroker F)
      → IsBooked start b
      → IsBooked start (close_long k qty price charges why b).1
  unfolding close_long
  close_long-IsBooked start k qty price charges why b v =
      elim (Option-cases (lookup k b.positions)) [
        | inl e ↦ rw (e, close_long) v
        | inr (p, e) ↦
            rw (e, close_long)
              (record { adds_up = rw (booked-snoc start b.trade_log _, v.adds_up) })
      ]

  cover_short-IsBooked :
      (start : F) (k : String) (qty : ℤ) (price charges : F) (why : String) (b : PaperBroker F)
      → IsBooked start b
      → IsBooked start (cover_short k qty price charges why b).1
  unfolding cover_short
  cover_short-IsBooked start k qty price charges why b v =
      elim (Option-cases (lookup k b.short_positions)) [
        | inl e ↦ rw (e, cover_short) v
        | inr (p, e) ↦
            rw (e, cover_short)
              (record { adds_up = rw (booked-snoc start b.trade_log _, v.adds_up) })
      ]

  open_or_add_long-IsBooked :
      (start : F) (k : String) (qty : ℤ) (price stop : F) (target : Option F) (strategy : String)
      (b : PaperBroker F)
      → IsBooked start b
      → IsBooked start (open_or_add_long k qty price stop target strategy b).1
  unfolding open_or_add_long
  open_or_add_long-IsBooked start k qty price stop target strategy b v =
      let e = v.adds_up in record { adds_up = ground arith }

  pub IsBooked-Kept : (start : F) → Kept {F = F} (IsBooked start)
  unfolding open_short
  IsBooked-Kept start = record {
    frame = λ b c _ _ e e' v. record { adds_up = rw (e, e') v.adds_up };
    close = close_long-IsBooked start;
    cover = cover_short-IsBooked start;
    grow = λ k qty price stop target strategy b v h free.
        open_or_add_long-IsBooked start k qty price stop target strategy b v;
    short = λ k qty price stop target strategy b v h free. record { adds_up = v.adds_up };
    mark = λ k px p b e v. record { adds_up = v.adds_up };
    mark_short = λ k px p b e v. record { adds_up = v.adds_up };
  }

  run-adds_up :
      (b : PaperBroker F) (cs : List (Call F))
      → All IsSound cs
      → b.trade_log ≡ []
      → (run b cs).realized_pnl ≡ booked b.realized_pnl (run b cs).trade_log
  run-adds_up b cs h none_yet =
      (run-keeps (IsBooked b.realized_pnl) (IsBooked-Kept b.realized_pnl) cs b h
        (record { adds_up = rw none_yet refl })).adds_up

  -- After any history of orders with positive quantities, cancellations, prices and partial exits,
  -- the realized profit is the sum of the trade log, added in the order of the trades: from zero for
  -- a new broker, and from the profit of the snapshot for a new broker on which a snapshot has been
  -- restored first, whatever the snapshot says and also if restoring it raises.
  pub run-new_broker-IsBooked :
      (starting_cash : F) (cfg : ExecutionCfg F) (utc : DateTime) (s : Snapshot F)
      (cs : List (Call F))
      → All IsSound cs
      → let fresh = new_broker starting_cash cfg utc in
        let again = (restore_state s fresh).1 in
        ((run fresh cs).realized_pnl ≡ booked zero_f (run fresh cs).trade_log)
        × (again.realized_pnl ≡ get_or s.realized_pnl zero_f)
        × ((run again cs).realized_pnl
            ≡ booked (get_or s.realized_pnl zero_f) (run again cs).trade_log)
  unfolding new_broker
  run-new_broker-IsBooked starting_cash cfg utc s cs h =
      let fresh = new_broker starting_cash cfg utc in
      let again = (restore_state s fresh).1 in
      let profit = restore_state-realized_pnl s fresh in
      (
        run-adds_up fresh cs h refl,
        profit,
        run-adds_up again cs h (restore_state-trade_log s fresh)
            ∙ ap (λ x. booked x (run again cs).trade_log) profit,
      )
