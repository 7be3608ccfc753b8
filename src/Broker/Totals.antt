-- ===== src/Broker/Totals.antt =====
-- The equity of `PaperBroker` in exact arithmetic: the cash and a sum over the entries, which each
-- change of one entry moves by a known amount.
use pypoc.Prelude.{String, ◌≡◌, refl, none, some, [], ◌∷◌, map, arith, Eq, string_eq}
use pypoc.Prelude.Int.{ℤ, pos, ◌+ℤ◌, ◌-ℤ◌, int_laws}
use pypoc.Prelude.Dict.{Dict, lookup, insert, erase, values}
use pypoc.Numbers.{Float, IsExact, sum_ℤ, units-sum_f}
use pypoc.Types.{Position, market_value}
use pypoc.Broker.State.{PaperBroker}
use pypoc.Broker.Positions.{equity, short_pnl}

module _ {K V : Type 0} ⦃e : Eq K⦄ (g : V → ℤ) where
  abbrev pub sum_entries : Dict K V → ℤ
  sum_entries [] = pos 0
  sum_entries ((k, v) ∷ d) = g v +ℤ sum_entries d

  pub sum_entries-insert_new :
      (k : K) (v : V) (d : Dict K V)
      → lookup k d ≡ none
      → sum_entries (insert k v d) ≡ sum_entries d +ℤ g v
  sum_entries-insert_new k v [] h = omega int_laws
  sum_entries-insert_new k v ((j, w) ∷ d) h = grind (int_laws, sum_entries-insert_new k v d)

  pub sum_entries-insert :
      (k : K) (v old : V) (d : Dict K V)
      → lookup k d ≡ some old
      → sum_entries (insert k v d) ≡ sum_entries d +ℤ g v -ℤ g old
  sum_entries-insert k v old [] h = absurd (ground arith)
  sum_entries-insert k v old ((j, w) ∷ d) h = grind (int_laws, sum_entries-insert k v old d)

  pub sum_entries-erase :
      (k : K) (old : V) (d : Dict K V)
      → lookup k d ≡ some old
      → sum_entries (erase k d) ≡ sum_entries d -ℤ g old
  sum_entries-erase k old [] h = absurd (ground arith)
  sum_entries-erase k old ((j, w) ∷ d) h = grind (int_laws, sum_entries-erase k old d)

module _ {F : Type 0} ⦃f : Float F⦄ (exact : IsExact F) where
  open exact use {units}

  sum_values :
      {V : Type 0} (g : V → F) (d : Dict String V)
      → sum_ℤ units (map g (values d)) ≡ sum_entries (λ v. units (g v)) d
  sum_values g [] = refl
  sum_values g ((k, v) ∷ d) = rw (sum_values g d)

  abbrev pub long_total : Dict String (Position F) → ℤ
  long_total = sum_entries λ p. units (market_value p)

  abbrev pub short_total : Dict String (Position F) → ℤ
  short_total = sum_entries λ p. units (short_pnl p)

  pub units-equity :
      (b : PaperBroker F)
      → units (equity b) ≡ units b.cash +ℤ long_total b.positions +ℤ short_total b.short_positions
  unfolding equity
  units-equity b = rw (
    exact.units-add _ _,
    exact.units-add _ _,
    units-sum_f exact (map market_value (values b.positions)),
    units-sum_f exact (map short_pnl (values b.short_positions)),
    sum_values market_value b.positions,
    sum_values short_pnl b.short_positions,
  )
