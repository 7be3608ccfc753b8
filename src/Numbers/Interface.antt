-- ===== src/Numbers/Interface.antt =====
-- The operations that the source applies to a `float`, and the laws of exact arithmetic.
use pypoc.Prelude.{ℕ, ◌≤◌, ◌<◌, ◌≡◌, Bool, true, false, arith, if◌then◌else◌}
use pypoc.Prelude.Int.{ℤ, pos, ◌+ℤ◌, ◌-ℤ◌, ◌*ℤ◌, ◌≤ℤ◌, ◌<ℤ◌, ltb_ℤ, leb_ℤ}

pub record Float (F : Type 0) : Type 0 where
  -- `float(n)`, and the decimal literal n / d
  pub of_int : ℤ → F
  pub ratio : ℕ → ℕ → F
  pub add : F → F → F
  pub sub : F → F → F
  pub mul : F → F → F
  -- `x / y` and `x // y` for a divisor that is not zero
  pub div : F → F → F
  pub floor_div : F → F → F
  pub neg : F → F
  pub lt : F → F → Bool
  pub le : F → F → Bool
  pub is_zero : F → Bool
  -- `int(x)` of a finite number
  pub trunc : F → ℤ

module _ {F : Type 0} ⦃f : Float F⦄ where
  abbrev pub zero_f : F
  zero_f = f.of_int (pos 0)

  -- `max(x, y)` and `min(x, y)`: the first of two that are equal
  abbrev pub max_f : F → F → F
  max_f x y = if f.lt x y then y else x

  abbrev pub min_f : F → F → F
  min_f x y = if f.lt y x then y else x

  abbrev pub abs_f : F → F
  abs_f x = if f.lt x zero_f then f.neg x else x

  -- `x or y`
  abbrev pub or_else : F → F → F
  or_else x y = if f.is_zero x then y else x

  -- `p / 100.0`
  abbrev pub percent : F → F
  percent p = f.div p (f.of_int (pos 100))

-- Exact arithmetic: the numbers are multiples of one unit, and sums, differences, products by an
-- integer and comparisons are those of the integers. Products and quotients of two floats stay
-- free, but for a quotient that is rounded down.
pub record IsExact (F : Type 0) ⦃f : Float F⦄ : Type 0 where
  pub units : F → ℤ
  pub units-zero : units zero_f ≡ pos 0
  pub units-add : (x y : F) → units (f.add x y) ≡ units x +ℤ units y
  pub units-sub : (x y : F) → units (f.sub x y) ≡ units x -ℤ units y
  pub units-int_mul : (q : ℤ) (x : F) → units (f.mul (f.of_int q) x) ≡ q *ℤ units x
  pub units-mul_int : (q : ℤ) (x : F) → units (f.mul x (f.of_int q)) ≡ q *ℤ units x
  pub lt-units : (x y : F) → f.lt x y ≡ ltb_ℤ (units x) (units y)
  pub le-units : (x y : F) → f.le x y ≡ leb_ℤ (units x) (units y)
  -- an integer count of `y` that `x // y` gives is at most `x`
  pub floor_div_le : (x y : F) → pos 0 <ℤ units y → f.trunc (f.floor_div x y) *ℤ units y ≤ℤ units x
  -- a number that is not negative grows under a factor n / d of one or more
  pub mul_ratio_ge :
      (x : F) (n d : ℕ)
      → 0 < d
      → d ≤ n
      → pos 0 ≤ℤ units x
      → units x ≤ℤ units (f.mul x (f.ratio n d))
  -- a fraction n / d of one or more, and a product by a factor of one or more
  pub one_le_ratio : (n d : ℕ) → 0 < d → d ≤ n → f.le (f.of_int (pos 1)) (f.ratio n d) ≡ true
  pub mul_positive :
      (m x : F) → f.le (f.of_int (pos 1)) m ≡ true → pos 0 <ℤ units x → pos 0 <ℤ units (f.mul m x)

-- The order of the numbers that are not NaN.
pub record IsOrdered (F : Type 0) ⦃f : Float F⦄ : Type 0 where
  pub le_refl : (x : F) → f.le x x ≡ true
  pub le_trans : (x y z : F) → f.le x y ≡ true → f.le y z ≡ true → f.le x z ≡ true
  pub lt_le : (x y : F) → f.lt x y ≡ true → f.le x y ≡ true
  pub not_lt_le : (x y : F) → f.lt x y ≡ false → f.le y x ≡ true

module _ {F : Type 0} ⦃f : Float F⦄ (o : IsOrdered F) where
  pub le-max_left : (x y : F) → f.le x (max_f x y) ≡ true
  le-max_left x y = ground (arith, o.lt_le x y, o.le_refl x)

  pub le-max_right : (x y : F) → f.le y (max_f x y) ≡ true
  le-max_right x y = ground (arith, o.not_lt_le x y, o.le_refl y)

  pub min_left-le : (x y : F) → f.le (min_f x y) x ≡ true
  min_left-le x y = ground (arith, o.lt_le y x, o.le_refl x)

  pub min_right-le : (x y : F) → f.le (min_f x y) y ≡ true
  min_right-le x y = ground (arith, o.not_lt_le y x, o.le_refl y)
