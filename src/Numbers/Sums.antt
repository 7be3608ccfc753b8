-- ===== src/Numbers/Sums.antt =====
-- `sum(...)` over floats.
use pypoc.Prelude.{◌≡◌, List, [], ◌∷◌, foldl}
use pypoc.Prelude.Int.{ℤ, pos, ◌+ℤ◌, int_laws}
use pypoc.Numbers.Interface.{Float, IsExact, zero_f}

-- `sum` starts at the integer 0 and adds from the left.
abbrev pub sum_f : {F : Type 0} ⦃f : Float F⦄ → List F → F
sum_f ⦃f⦄ = foldl f.add zero_f

abbrev pub sum_ℤ {ℓ} : {A : Type ℓ} → (A → ℤ) → List A → ℤ
sum_ℤ g [] = pos 0
sum_ℤ g (x ∷ xs) = g x +ℤ sum_ℤ g xs

module _ {F : Type 0} ⦃f : Float F⦄ (exact : IsExact F) where
  units-foldl :
      (acc : F) (xs : List F)
      → exact.units (foldl f.add acc xs) ≡ exact.units acc +ℤ sum_ℤ exact.units xs
  units-foldl acc [] = omega int_laws
  units-foldl acc (x ∷ xs) =
      rw (units-foldl (f.add acc x) xs, exact.units-add acc x) (omega int_laws)

  -- In exact arithmetic a `sum` is the sum of the units, in any order.
  pub units-sum_f : (xs : List F) → exact.units (sum_f xs) ≡ sum_ℤ exact.units xs
  units-sum_f xs = rw (units-foldl zero_f xs, exact.units-zero) (omega int_laws)
