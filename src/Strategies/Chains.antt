-- ===== src/Strategies/Chains.antt =====
-- The steps of an `evaluate` of core/strategies, for proofs about the signal at its end.
use pypoc.Prelude.{ℕ, List, Bool}
use pypoc.Numbers.{Float}
use pypoc.Strategies.Verdict.{Verdict, Gives, Gives-bind, Gives-skip, gives, ◌>>=◌}
use pypoc.Strategies.Frame.{Pandas, iloc, divide}
use pypoc.Strategies.Momentum.{dma_falls}
use pypoc.Strategies.Reversion.{fell_yesterday}
use pypoc.Strategies.Levels.{signal_of-IsSound}

module _ {B : Type 0} {P : B → Type 0} where
  pub Gives-iloc :
      {A : Type 0} (k : ℕ) (xs : List A) (g : A → Verdict B)
      → ((a : A) → Gives P (g a))
      → Gives P (iloc k xs >>= g)
  Gives-iloc k xs g h = Gives-bind (iloc k xs) g h

  module _ {F : Type 0} ⦃f : Float F⦄ where
    pub Gives-divide :
        (x y : F) (g : F → Verdict B) → ((a : F) → Gives P (g a)) → Gives P (divide x y >>= g)
    Gives-divide x y g h = Gives-bind (divide x y) g h

    pub Gives-dma_falls :
        ⦃pd : Pandas F⦄ (dma : List F) (g : Bool → Verdict B)
        → ((a : Bool) → Gives P (g a))
        → Gives P (dma_falls dma >>= g)
    Gives-dma_falls dma g h = Gives-bind (dma_falls dma) g h

    pub Gives-fell_yesterday :
        ⦃pd : Pandas F⦄ (lookback : ℕ) (dma : List F) (g : Bool → Verdict B)
        → ((a : Bool) → Gives P (g a))
        → Gives P (fell_yesterday lookback dma >>= g)
    Gives-fell_yesterday lookback dma g h = Gives-bind (fell_yesterday lookback dma) g h

pub ruleset chain = (
  Gives-skip, Gives-iloc, Gives-divide, Gives-dma_falls, Gives-fell_yesterday, gives,
  signal_of-IsSound,
)
