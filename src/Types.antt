-- ===== src/Types.antt =====
-- core/types.py: the domain types that the modules share. A datetime is the count of microseconds
-- since a midnight.
use pypoc.Prelude.{ℕ, String, ◌≡◌, Bool, true, false, ◌↔◌, Option, arith, Eq, if◌then◌else◌}
use pypoc.Prelude.Int.{ℤ}
use pypoc.Numbers.{Float, zero_f, max_f, or_else}

abbrev pub DateTime : Type 0
DateTime = ℕ

abbrev pub microseconds_per_minute : ℕ
microseconds_per_minute = 60_000_000

abbrev pub microseconds_per_day : ℕ
microseconds_per_day = 86_400_000_000

pub data Side : Type 0 where
  buy sell : Side

pub data OrderType : Type 0 where
  market limit : OrderType

pub data OrderStatus : Type 0 where
  pending filled rejected cancelled partial : OrderStatus

pub data Regime : Type 0 where
  trend range volatile unknown : Regime

abbrev pub is_buy : Side → Bool
is_buy buy = true
is_buy sell = false

abbrev pub regime_beq : Regime → Regime → Bool
regime_beq trend trend = true
regime_beq range range = true
regime_beq volatile volatile = true
regime_beq unknown unknown = true
regime_beq _ _ = false

pub regime_beq_iff : (a b : Regime) → (regime_beq a b ≡ true) ↔ (a ≡ b)
regime_beq_iff a b = ground arith

instance abbrev pub regime_eq : Eq Regime
regime_eq = record { beq = regime_beq; beq_iff = regime_beq_iff }

pub record Tick (F : Type 0) : Type 0 where
  pub symbol : String
  pub ltp : F
  pub bid : F
  pub ask : F
  pub volume : ℤ
  pub ts : DateTime

pub record Candle (F : Type 0) : Type 0 where
  pub symbol : String
  pub interval : String
  pub opening : F
  pub high : F
  pub low : F
  pub close : F
  pub volume : ℤ
  pub ts : DateTime

pub record Signal (F : Type 0) : Type 0 where
  pub symbol : String
  pub side : Side
  pub strategy : String
  pub regime : Regime
  pub entry_price : F
  pub stop_loss : F
  pub target : F
  pub confidence : F
  pub rationale : String
  pub ts : DateTime

pub record Order (F : Type 0) : Type 0 where
  pub id : String
  pub symbol : String
  pub side : Side
  pub qty : ℤ
  pub order_type : OrderType
  pub limit_price : Option F
  pub stop_loss : F
  pub target : Option F
  pub status : OrderStatus
  pub filled_price : Option F
  pub filled_qty : ℤ
  pub rejection_reason : Option String
  pub strategy : String
  pub ts : DateTime

pub record Position (F : Type 0) : Type 0 where
  pub symbol : String
  pub qty : ℤ
  pub avg_price : F
  pub stop_loss : F
  pub target : Option F
  pub strategy : String
  pub opened_at : DateTime
  pub last_price : F

module _ {F : Type 0} ⦃f : Float F⦄ where
  unfoldable pub risk_per_share : Signal F → F
  risk_per_share s =
      if is_buy s.side
      then max_f zero_f (f.sub s.entry_price s.stop_loss)
      else max_f zero_f (f.sub s.stop_loss s.entry_price)

  unfoldable pub market_value : Position F → F
  market_value p = f.mul (f.of_int p.qty) (or_else p.last_price p.avg_price)

  unfoldable pub unrealized_pnl : Position F → F
  unrealized_pnl p = f.mul (f.of_int p.qty) (f.sub (or_else p.last_price p.avg_price) p.avg_price)
