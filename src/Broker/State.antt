-- ===== src/Broker/State.antt =====
-- The state of `PaperBroker` in core/broker/paper.py. A call of a callback is kept as a notice, in
-- order; `utc` is what `datetime.utcnow()` returns during the call.
use pypoc.Prelude.{String, Bool, false, Option, none, some, List, [], ◌∷◌, ◌++◌, map, if◌then◌else◌}
use pypoc.Prelude.Int.{ℤ}
use pypoc.Prelude.Dict.{Dict, values}
use pypoc.Prelude.Result.{Result, ok, raises}
use pypoc.Numbers.{Float, zero_f}
use pypoc.Types.{DateTime, Side, Order, Position}
use pypoc.Config.{ExecutionCfg}

pub record TradeRecord (F : Type 0) : Type 0 where
  pub symbol : String
  pub side : Side
  pub qty : ℤ
  pub entry_price : F
  pub exit_price : F
  pub pnl : F
  pub charges : F
  pub strategy : String
  pub opened_at : DateTime
  pub closed_at : DateTime
  pub exit_reason : String

-- A text that `isoformat` makes of a time, or one that `fromisoformat` does not read.
pub data IsoText : Type 0 where
  stamp : DateTime → IsoText
  garbled : String → IsoText

-- The dictionary of one position in a snapshot. A key may be missing, and `None` is no target and no
-- time. The values have the types that `snapshot_state` writes, which JSON keeps.
pub record PositionDict (F : Type 0) : Type 0 where
  pub symbol : Option String
  pub qty : Option ℤ
  pub avg_price : Option F
  pub stop_loss : Option F
  pub target : Option F
  pub strategy : Option String
  pub opened_at : Option IsoText
  pub last_price : Option F

-- What `snapshot_state` writes and `restore_state` reads.
pub record Snapshot (F : Type 0) : Type 0 where
  pub cash : Option F
  pub realized_pnl : Option F
  pub longs : Option (List (PositionDict F))
  pub shorts : Option (List (PositionDict F))

pub data Notice (F : Type 0) : Type 0 where
  exited : String → F → String → String → Notice F
  changed : Snapshot F → Notice F

pub record PaperBroker (F : Type 0) : Type 0 where
  pub cash : F
  pub exec : ExecutionCfg F
  pub positions : Dict String (Position F)
  pub short_positions : Dict String (Position F)
  pub orders : Dict String (Order F)
  pub latest_prices : Dict String F
  pub trade_log : List (TradeRecord F)
  pub realized_pnl : F
  pub sim_time : Option DateTime
  -- whether the two callbacks are set
  pub on_exit : Bool
  pub on_state_change : Bool
  pub notices : List (Notice F)
  pub utc : DateTime

-- A method that may raise. What it wrote before stays written.
abbrev pub Outcome : Type 0 → Type 0 → Type 0
Outcome F A = Result A × PaperBroker F

unfoldable pub then_do :
    {F A : Type 0} → Outcome F (Unit {0}) → (PaperBroker F → Outcome F A) → Outcome F A
then_do (ok _, b) next = next b
then_do (raises e, b) next = (raises e, b)

module _ {F : Type 0} where
  unfoldable pub now_of : PaperBroker F → DateTime
  now_of b = elim b.sim_time [ some t ↦ t | none ↦ b.utc ]

  -- `_pos`
  abbrev pub position_dict : Position F → PositionDict F
  position_dict p = record {
    symbol = some p.symbol;
    qty = some p.qty;
    avg_price = some p.avg_price;
    stop_loss = some p.stop_loss;
    target = p.target;
    strategy = some p.strategy;
    opened_at = some (stamp p.opened_at);
    last_price = some p.last_price;
  }

  unfoldable pub snapshot_state : PaperBroker F → Snapshot F
  snapshot_state b = record {
    cash = some b.cash;
    realized_pnl = some b.realized_pnl;
    longs = some (map position_dict (values b.positions));
    shorts = some (map position_dict (values b.short_positions));
  }

  -- `_notify_state_change`: an exception of the callback is swallowed.
  unfoldable pub notify_state_change : PaperBroker F → PaperBroker F
  unfolding snapshot_state
  notify_state_change b = record b {
    notices =
        if b.on_state_change then b.notices ++ (changed (snapshot_state b) ∷ []) else b.notices;
  }

module _ {F : Type 0} ⦃f : Float F⦄ where
  unfoldable pub new_broker : F → ExecutionCfg F → DateTime → PaperBroker F
  new_broker starting_cash cfg utc = record {
    cash = starting_cash;
    exec = cfg;
    positions = [];
    short_positions = [];
    orders = [];
    latest_prices = [];
    trade_log = [];
    realized_pnl = zero_f;
    sim_time = none;
    on_exit = false;
    on_state_change = false;
    notices = [];
    utc = utc;
  }
