-- ===== src/Numbers/Fixed.antt =====
-- A decimal format with six places, as one that the source's operations can run on: a number is
-- the count of its millionths. Products and quotients round down.
use pypoc.Prelude.{ℕ, suc, ◌*◌, ◌/◌, ◌≤◌, ◌<◌, ◌≡◌, refl, ap, Bool, false, arith, nat_beq, true}
use pypoc.Prelude.Int.{
  ℤ, pos, negsuc, pos_part, neg_part, ◌+ℤ◌, ◌-ℤ◌, ◌*ℤ◌, ◌≤ℤ◌, ◌<ℤ◌, ltb_ℤ, leb_ℤ, floor_ℤ, *ℤ_parts,
  *ℤ_comm, eq_of_parts,
}
use pypoc.Numbers.Interface.{Float, IsExact, IsOrdered}

abbrev pub Micro : Type 0
Micro = ℤ

abbrev pub million : ℕ
million = 1_000_000

-- x / y on integers, rounded down; zero for a divisor of zero
unfoldable pub floor_quotient : ℤ → ℤ → ℤ
unfolding floor_ℤ ◌-ℤ◌
floor_quotient x (pos n) = floor_ℤ x n
floor_quotient x (negsuc n) = floor_ℤ (pos 0 -ℤ x) (suc n)

-- towards zero
unfoldable pub trunc_millionths : ℤ → ℤ
unfolding ◌-ℤ◌
trunc_millionths (pos n) = pos (n / million)
trunc_millionths (negsuc n) = pos 0 -ℤ pos (suc n / million)

abbrev pub is_zero_ℤ : ℤ → Bool
is_zero_ℤ (pos n) = nat_beq n 0
is_zero_ℤ (negsuc n) = false

instance abbrev pub micro_float : Float Micro
micro_float = record {
  of_int = λ n. pos million *ℤ n;
  ratio = λ n d. pos (n * million / d);
  add = ◌+ℤ◌;
  sub = ◌-ℤ◌;
  mul = λ x y. floor_ℤ (x *ℤ y) million;
  div = λ x y. floor_quotient (pos million *ℤ x) y;
  floor_div = λ x y. pos million *ℤ floor_quotient x y;
  neg = λ x. pos 0 -ℤ x;
  lt = ltb_ℤ;
  le = leb_ℤ;
  is_zero = is_zero_ℤ;
  trunc = trunc_millionths;
}

million_times : (x : ℤ) → floor_ℤ (pos million *ℤ x) million ≡ x
unfolding floor_ℤ ◌*ℤ◌
million_times x = ground arith

times_assoc : (k : ℕ) (q x : ℤ) → pos k *ℤ q *ℤ x ≡ pos k *ℤ (q *ℤ x)
times_assoc k q x = eq_of_parts _ _ (
    omega (
      arith,
      *ℤ_parts (pos k *ℤ q) x,
      *ℤ_parts (pos k) q,
      *ℤ_parts (pos k) (q *ℤ x),
      *ℤ_parts q x,
      ap (λ (t : ℕ). pos_part x * t) (*ℤ_parts (pos k) q),
      ap (λ (t : ℕ). neg_part x * t) (*ℤ_parts (pos k) q),
      ap (λ (t : ℕ). k * t) (*ℤ_parts q x),
    ))

millions_times : (q x : ℤ) → floor_ℤ (pos million *ℤ q *ℤ x) million ≡ q *ℤ x
millions_times q x = rw times_assoc (million_times (q *ℤ x))

times_millions : (q x : ℤ) → floor_ℤ (x *ℤ (pos million *ℤ q)) million ≡ q *ℤ x
times_millions q x = rw (*ℤ_comm x (pos million *ℤ q)) (millions_times q x)

trunc_million : (x : ℤ) → trunc_millionths (pos million *ℤ x) ≡ x
unfolding trunc_millionths ◌*ℤ◌ ◌-ℤ◌
trunc_million x = ground arith

floor_quotient_le : (x y : ℤ) → pos 0 <ℤ y → floor_quotient x y *ℤ y ≤ℤ x
unfolding floor_quotient floor_ℤ ◌*ℤ◌
floor_quotient_le (pos n) (pos m) h = grind arith
floor_quotient_le (negsuc n) (pos m) h = grind arith
floor_quotient_le x (negsuc m) h = absurd (omega arith)

ratio_ge : (n d : ℕ) → 0 < d → d ≤ n → million ≤ n * million / d
ratio_ge n d hd h = grind arith

quotient_ge : (k r : ℕ) → million ≤ r → k ≤ k * r / million
quotient_ge k r h = let scaled : k * million ≤ k * r = grind arith in omega arith

mul_ratio_ge :
    (x : ℤ) (n d : ℕ)
    → 0 < d
    → d ≤ n
    → pos 0 ≤ℤ x
    → x ≤ℤ floor_ℤ (x *ℤ pos (n * million / d)) million
unfolding floor_ℤ ◌*ℤ◌
mul_ratio_ge (pos k) n d hd h hx =
    ground (arith, quotient_ge k (n * million / d) (ratio_ge n d hd h))
mul_ratio_ge (negsuc k) n d hd h hx = absurd (omega arith)

one_le_ratio :
    (n d : ℕ) → 0 < d → d ≤ n → leb_ℤ (pos million *ℤ pos 1) (pos (n * million / d)) ≡ true
unfolding ◌*ℤ◌
one_le_ratio n d hd h = ground (arith, ratio_ge n d hd h)

product_positive : (k r : ℕ) → million ≤ r → 0 < k → 0 < r * k / million
product_positive k r h p = let scaled : million ≤ r * k = grind arith in omega arith

mul_positive :
    (m x : ℤ)
    → leb_ℤ (pos million *ℤ pos 1) m ≡ true
    → pos 0 <ℤ x
    → pos 0 <ℤ floor_ℤ (m *ℤ x) million
unfolding floor_ℤ ◌*ℤ◌
mul_positive (pos r) (pos k) h p = ground (arith, product_positive k r)
mul_positive (negsuc r) x h p = absurd (ground arith)
mul_positive (pos r) (negsuc k) h p = absurd (omega arith)

zero_millions : pos million *ℤ pos 0 ≡ pos 0
unfolding ◌*ℤ◌
zero_millions = refl

-- The format is exact in its sums, differences and products by an integer.
pub Micro-IsExact : IsExact Micro
Micro-IsExact = record {
  units = λ x. x;
  units-zero = zero_millions;
  units-add = λ x y. refl;
  units-sub = λ x y. refl;
  units-int_mul = millions_times;
  units-mul_int = times_millions;
  lt-units = λ x y. refl;
  le-units = λ x y. refl;
  floor_div_le = λ x y h. rw (trunc_million (floor_quotient x y)) (floor_quotient_le x y h);
  mul_ratio_ge = mul_ratio_ge;
  one_le_ratio = one_le_ratio;
  mul_positive = mul_positive;
}

pub units-Micro : (x : Micro) → Micro-IsExact.units x ≡ x
unfolding Micro-IsExact
units-Micro x = refl

pub Micro-IsOrdered : IsOrdered Micro
Micro-IsOrdered = record {
  le_refl = λ x. ground arith;
  le_trans = λ x y z h h'. ground arith;
  lt_le = λ x y h. ground arith;
  not_lt_le = λ x y h. ground arith;
}
