-- ===== src/Broker/Snapshot.antt =====
-- `snapshot_state` and `restore_state` of `PaperBroker` in core/broker/paper.py. The snapshot is
-- the dictionary that is written as JSON; a float or an integer in it is read as it was written.
use mathlib.Core.List.{append-nil, append_assoc}
use pypoc.Prelude.{
  get_or, String, Option, some, map, inl, inr, if◌then◌else◌, ◌==◌, ◌≡◌, ◌∙◌, ap, refl, sym, none,
  List, [], ◌∷◌, ◌++◌, arith, string_eq,
}
use pypoc.Prelude.Dict.{Dict, lookup, insert, values, Entries, Distinct, lookup-insert}
use pypoc.Prelude.Result.{Result, ok, raises, or_raise, key_error, value_error, ◌>>=◌, Result-cases}
use pypoc.Numbers.{Float, zero_f}
use pypoc.Types.{DateTime, Position}
use pypoc.Broker.State.{
  PaperBroker, Outcome, Snapshot, PositionDict, IsoText, stamp, garbled, position_dict, now_of,
  snapshot_state,
}

-- The time of a position that is read, or the present time if there is none.
abbrev pub read_time : DateTime → Option IsoText → Result DateTime
read_time now none = ok now
read_time now (some (stamp t)) = ok t
read_time now (some (garbled t)) = if t == "" then ok now else raises value_error

-- `d[key]`
abbrev pub key_of {ℓ} : {A : Type ℓ} → Option A → Result A
key_of x = or_raise x key_error

module _ {F : Type 0} ⦃f : Float F⦄ where
  -- `_mk`, at the present time
  unfoldable pub made : DateTime → PositionDict F → Result (Position F)
  made now d = do
    symbol ← key_of d.symbol
    qty ← key_of d.qty
    avg_price ← key_of d.avg_price
    stop_loss ← key_of d.stop_loss
    opened_at ← read_time now d.opened_at
    ok (record {
      symbol = symbol;
      qty = qty;
      avg_price = avg_price;
      stop_loss = stop_loss;
      target = d.target;
      strategy = get_or d.strategy "";
      opened_at = opened_at;
      last_price = get_or d.last_price zero_f;
    })

  -- `{d["symbol"]: _mk(d) for d in ...}`, from an empty dict
  unfoldable pub restore_positions :
      DateTime
      → List (PositionDict F)
      → Dict String (Position F)
      → Result (Dict String (Position F))
  restore_positions now [] d = ok d
  restore_positions now (x ∷ xs) d = do
    p ← made now x
    restore_positions now xs (insert p.symbol p d)

  -- The cash and the realized profit are restored first, then the long positions, then the short ones.
  unfoldable pub restore_state : Snapshot F → PaperBroker F → Outcome F (Unit {0})
  unfolding restore_positions
  restore_state s b =
      let paid = record b {
        cash = get_or s.cash b.cash;
        realized_pnl = get_or s.realized_pnl zero_f;
      } in
      elim (restore_positions (now_of b) (get_or s.longs []) []) [
        | raises e ↦ (raises e, paid)
        | ok longs ↦ elim (restore_positions (now_of b) (get_or s.shorts []) []) [
          | raises e ↦ (raises e, record paid { positions = longs })
          | ok shorts ↦ (ok tt, record paid { positions = longs; short_positions = shorts })
        ]
      ]

  -- Every position stands under its own symbol.
  abbrev pub WellKeyed : Dict String (Position F) → Type 0
  WellKeyed = Entries λ k p. p.symbol ≡ k

  -- An insertion of a new key appends.
  insert_new :
      (k : String) (p : Position F) (d : Dict String (Position F))
      → lookup k d ≡ none
      → insert k p d ≡ d ++ ((k, p) ∷ [])
  insert_new k p [] h = refl
  insert_new k p ((j, q) ∷ d) h = ground (arith, string_eq.beq_iff j k, insert_new k p d)

  -- The keys of a dict that is still to be read do not stand in what has been read.
  abbrev Apart : Dict String (Position F) → Dict String (Position F) → Type 0
  Apart done = Entries λ k _. lookup k done ≡ none

  Apart-insert :
      (k : String) (p : Position F) (done rest : Dict String (Position F))
      → lookup k rest ≡ none
      → Apart done rest
      → Apart (insert k p done) rest
  Apart-insert k p done [] free h = tt
  Apart-insert k p done ((j, q) ∷ rest) free h = ground (
    arith,
    lookup-insert k j p done,
    string_eq.beq_iff j k,
    string_eq.beq_iff k j,
    Apart-insert k p done rest,
  )

  made-position_dict : (now : DateTime) (p : Position F) → made now (position_dict p) ≡ ok p
  unfolding made
  made-position_dict now p = refl

  restore_positions-append :
      (now : DateTime) (d done : Dict String (Position F))
      → WellKeyed d
      → Distinct d
      → Apart done d
      → restore_positions now (map position_dict (values d)) done ≡ ok (done ++ d)
  unfolding restore_positions made
  restore_positions-append now [] done w n h = ap ok (sym (append-nil done))
  restore_positions-append now ((k, p) ∷ d) done (key, w) (free, n) (new, h) =
      ap (λ j. restore_positions now (map position_dict (values d)) (insert j p done)) key
      ∙ restore_positions-append now d (insert k p done) w n (Apart-insert k p done d free h)
      ∙ ap (λ e. ok (e ++ d)) (insert_new k p done new)
      ∙ ap ok (append_assoc done ((k, p) ∷ []) d)

  Apart-empty : (d : Dict String (Position F)) → Apart [] d
  Apart-empty [] = tt
  Apart-empty ((k, p) ∷ d) = (refl, Apart-empty d)

  -- Restoring a snapshot in a broker returns, and brings back the cash, the realized profit and
  -- exactly the positions of the broker that it was taken of, each with all its fields and in their
  -- order, and touches nothing else, if each position stands under its own symbol and each symbol
  -- once.
  pub restore_state-snapshot_state :
      (b c : PaperBroker F)
      → WellKeyed b.positions
      → WellKeyed b.short_positions
      → Distinct b.positions
      → Distinct b.short_positions
      → restore_state (snapshot_state b) c ≡ (
        ok tt,
        record c {
          cash = b.cash;
          realized_pnl = b.realized_pnl;
          positions = b.positions;
          short_positions = b.short_positions;
        },
      )
  unfolding restore_state snapshot_state
  restore_state-snapshot_state b c wl ws nl ns =
      rw
        (
          restore_state,
          restore_positions-append (now_of c) b.positions [] wl nl (Apart-empty b.positions),
          restore_positions-append (now_of c) b.short_positions [] ws ns
              (Apart-empty b.short_positions),
        )
        refl

  -- Whatever a snapshot says, restoring it leaves the trade log.
  pub restore_state-trade_log :
      (s : Snapshot F) (b : PaperBroker F) → (restore_state s b).1.trade_log ≡ b.trade_log
  unfolding restore_state
  restore_state-trade_log s b =
      elim (Result-cases (restore_positions (now_of b) (get_or s.longs []) [])) [
        | inr (x, e) ↦ rw (restore_state, e) refl
        | inl (longs, e) ↦
            elim (Result-cases (restore_positions (now_of b) (get_or s.shorts []) [])) [
              | inr (x, e') ↦ rw (restore_state, e, e') refl
              | inl (shorts, e') ↦ rw (restore_state, e, e') refl
            ]
      ]

  pub restore_state-realized_pnl :
      (s : Snapshot F) (b : PaperBroker F)
      → (restore_state s b).1.realized_pnl ≡ get_or s.realized_pnl zero_f
  unfolding restore_state
  restore_state-realized_pnl s b =
      elim (Result-cases (restore_positions (now_of b) (get_or s.longs []) [])) [
        | inr (x, e) ↦ rw (restore_state, e) refl
        | inl (longs, e) ↦
            elim (Result-cases (restore_positions (now_of b) (get_or s.shorts []) [])) [
              | inr (x, e') ↦ rw (restore_state, e, e') refl
              | inl (shorts, e') ↦ rw (restore_state, e, e') refl
            ]
      ]
