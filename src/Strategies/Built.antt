-- ===== src/Strategies/Built.antt =====
-- The signals of the strategies that `_build_strategies` of core/execution/orchestrator.py builds.
use pypoc.Prelude.Int.{ℤ}
use pypoc.Risk.Guardrails.{check_stop_loss_required, Guardrails, PortfolioState, MarketContext}
use pypoc.Strategies.Entry.{Asked}
use pypoc.Strategies.Frame.{Pandas}
use pypoc.Risk.Guardrails.{Guardrails, PortfolioState, MarketContext, check_stop_loss_required}
use pypoc.Risk.Guardrails.Loop.{Allows}
use pypoc.Prelude.{
  get_or, ◌≡◌, Option, some, none, All, All-append, List, [], ◌∷◌, refl, ◌≤◌, ◌<◌, ℕ, String, arith,
  Bool, true, ◌↔◌, if◌then◌else◌, false, All-weaken, ◌&&◌, not,
}
use pypoc.Numbers.{Float, IsExact, zero_f}
use pypoc.Types.{Candle, Signal, Regime, Side, is_buy}
use pypoc.Strategies.Verdict.{Gives, Gives-weaken}
use pypoc.Strategies.Levels.{AtLeastOne, IsSound, InOrder, long, short}
use pypoc.Strategies.Sound
use pypoc.Strategies.Build.{
  Plan, Section, name_of, regimes_of, evaluate, build_strategies, when_enabled,
}

module _ {F : Type 0} ⦃f : Float F⦄ where
  -- The multiples that the settings of a section give are at least one.
  pub record IsSensible (cfg : Section F) : Type 0 where
    pub stops : (x : F) → cfg.number "atr_stop_multiplier" ≡ some x → AtLeastOne x
    pub targets : (x : F) → cfg.number "target_r_multiple" ≡ some x → AtLeastOne x

  module _ ⦃pd : Pandas F⦄ (exact : IsExact F) (asked : Asked) (candles : List (Candle F)) where
    -- What is proved of a plan.
    abbrev pub GivesSound : Plan F → Type 0
    GivesSound p = Gives (IsSound (name_of p) (regimes_of p) asked) (evaluate p asked candles)

    configured :
        (o : Option F) (n d : ℕ)
        → 0 < d
        → d ≤ n
        → ((x : F) → o ≡ some x → AtLeastOne x)
        → AtLeastOne (get_or o (f.ratio n d))
    configured none n d hd h given = exact.one_le_ratio n d hd h
    configured (some x) n d hd h given = given x refl

    stops_from :
        (cfg : Section F) (n d : ℕ)
        → 0 < d
        → d ≤ n
        → IsSensible cfg
        → AtLeastOne (get_or (cfg.number "atr_stop_multiplier") (f.ratio n d))
    stops_from cfg n d hd h given = configured _ n d hd h given.stops

    targets_from :
        (cfg : Section F) (n d : ℕ)
        → 0 < d
        → d ≤ n
        → IsSensible cfg
        → AtLeastOne (get_or (cfg.number "target_r_multiple") (f.ratio n d))
    targets_from cfg n d hd h given = configured _ n d hd h given.targets

    branch-All : (b : Bool) (p : Plan F) → GivesSound p → All GivesSound (if b then p ∷ [] else [])
    branch-All true p h = (h, tt)
    branch-All false p h = tt

    enabled-All :
        (o : Option (Section F)) (plan : Section F → Plan F)
        → ((cfg : Section F) → o ≡ some cfg → IsSensible cfg)
        → ((cfg : Section F) → IsSensible cfg → GivesSound (plan cfg))
        → All GivesSound (when_enabled o plan)
    enabled-All none plan sensible h = tt
    enabled-All (some cfg) plan sensible h =
        branch-All cfg.enabled (plan cfg) (h cfg (sensible cfg refl))

    -- In exact arithmetic, if no multiple in the settings is below one, then every signal of every
    -- strategy that is built carries the name of its strategy, the symbol and the regime that it was
    -- asked for, which is one of the strategy's, and has its stop on the losing side of the entry and
    -- its target on the other.
    pub build_strategies-IsSound :
        (scfg : String → Option (Section F))
        → ((name : String) (cfg : Section F) → scfg name ≡ some cfg → IsSensible cfg)
        → All GivesSound (build_strategies scfg)
    unfolding build_strategies evaluate
    build_strategies-IsSound scfg sensible =
        All-append GivesSound _ _
          (enabled-All (scfg "trend_breakout") _ (sensible "trend_breakout") (λ cfg h.
            Sound.trend_breakout-IsSound exact asked candles _
              (stops_from cfg 20 10 (omega arith) (omega arith) h)
              (targets_from cfg 25 10 (omega arith) (omega arith) h)))
          (All-append GivesSound _ _
            (enabled-All (scfg "mean_reversion") _ (sensible "mean_reversion")
              (λ cfg h. Sound.mean_reversion-IsSound exact asked candles _))
            (All-append GivesSound _ _
              (enabled-All (scfg "volatility_compression") _ (sensible "volatility_compression")
                (λ cfg h. Sound.volatility_compression-IsSound exact asked candles _))
              (All-append GivesSound _ _
                (enabled-All (scfg "supertrend_short") _ (sensible "supertrend_short") (λ cfg h.
                  Sound.supertrend_short-IsSound exact asked candles _
                    (targets_from cfg 20 10 (omega arith) (omega arith) h)))
                (All-append GivesSound _ _
                  (enabled-All (scfg "rsi_bounce") _ (sensible "rsi_bounce") (λ cfg h.
                    Sound.rsi_bounce-IsSound exact asked candles _
                      (targets_from cfg 20 10 (omega arith) (omega arith) h)))
                  (All-append GivesSound _ _
                    (enabled-All (scfg "vix_spike_bounce") _ (sensible "vix_spike_bounce") (λ cfg h.
                      Sound.vix_spike_bounce-IsSound exact asked candles _
                        (targets_from cfg 15 10 (omega arith) (omega arith) h)))
                    (All-append GivesSound _ _
                      (enabled-All (scfg "momentum_strength") _ (sensible "momentum_strength")
                        (λ cfg h.
                          Sound.momentum_strength-IsSound exact asked candles _
                            (targets_from cfg 25 10 (omega arith) (omega arith) h)))
                      (All-append GivesSound _ _
                        (enabled-All (scfg "nr_pattern") _ (sensible "nr_pattern") (λ cfg h.
                          Sound.nr_pattern-IsSound exact asked candles _
                            (targets_from cfg 20 10 (omega arith) (omega arith) h)))
                        (All-append GivesSound _ _
                          (enabled-All (scfg "volume_breakout_confirm") _
                            (sensible "volume_breakout_confirm")
                            (λ cfg h.
                              Sound.volume_breakout_confirm-IsSound exact asked candles _
                                (targets_from cfg 20 10 (omega arith) (omega arith) h)))
                          (enabled-All (scfg "gap_and_hold") _ (sensible "gap_and_hold") (λ cfg h.
                            Sound.gap_and_hold-IsSound exact asked candles _
                              (targets_from cfg 20 10 (omega arith) (omega arith) h)))))))))))

  module _ (exact : IsExact F) where
    above : (x y : F) → f.lt x y ≡ true → f.le y x ≡ false
    above x y h = ground (arith, exact.lt-units x y, exact.le-units y x)

    stop_tests :
        {side : Side} {stop entry target : F}
        → InOrder side stop entry target
        → ((is_buy side && f.le entry stop) ≡ false)
          × ((not (is_buy side) && f.le stop entry) ≡ false)
    stop_tests (long {stop} {entry} below _) = (above stop entry below, refl)
    stop_tests (short {stop} {entry} _ over) = (refl, above entry stop over)

    stop_rule :
        {name : String} {regimes : List Regime} {asked : Asked} (s : Signal F) (g : Guardrails F)
        (q : ℤ) (p : PortfolioState F) (m : MarketContext F)
        → IsSound name regimes asked s
        → Allows (check_stop_loss_required g s q p m) ↔ (f.le s.stop_loss zero_f ≡ false)
    unfolding check_stop_loss_required
    stop_rule s g q p m sound = let (buys, sells) = stop_tests sound.in_order in ground arith

    module _ ⦃pd : Pandas F⦄ (asked : Asked) (candles : List (Candle F)) (g : Guardrails F) (q : ℤ)
        (p : PortfolioState F) (m : MarketContext F) where
      -- The rule on stops allows what the plan signals exactly if its stop is above zero.
      abbrev pub PassesStop : Plan F → Type 0
      PassesStop plan =
          Gives
            (λ s. Allows (check_stop_loss_required g s q p m) ↔ (f.le s.stop_loss zero_f ≡ false))
            (evaluate plan asked candles)

      -- If no multiple in the settings is below one, then the guardrails' rule on stops allows a signal
      -- of a strategy that is built exactly if its stop is above zero, whatever the quantity, the
      -- portfolio and the market.
      pub build_strategies-PassesStop :
          (scfg : String → Option (Section F))
          → ((name : String) (cfg : Section F) → scfg name ≡ some cfg → IsSensible cfg)
          → All PassesStop (build_strategies scfg)
      build_strategies-PassesStop scfg sensible =
          All-weaken (build_strategies scfg)
            (λ plan sound. Gives-weaken (λ s h. stop_rule s g q p m h) sound)
            (build_strategies-IsSound exact asked candles scfg sensible)
